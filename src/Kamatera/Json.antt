-- ===== src/Kamatera/Json.antt =====
-- JSON values, as encoding/json reads them, and the Go types that internal/kamatera/client.go decodes
-- them into. The text of a number is kept, as `json.Number` does.
use kamatera_autoscaler.Base.{String, ◌==◌, Bool, if◌then◌else◌, List, [], ◌∷◌, Option, none, some}

mutual
  pub data Json : Type 0 where
    null : Json
    boolean : Bool → Json
    number : String → Json
    text : String → Json
    array : Items → Json
    object : Fields → Json

  pub data Items : Type 0 where
    nil : Items
    cons : Json → Items → Items

  pub data Fields : Type 0 where
    end : Fields
    field : String → Json → Fields → Fields

-- `json.Unmarshal` into a `string`: a null leaves the empty string.
unfoldable pub to_string : Json → Option String
to_string null = some ""
to_string (boolean b) = none
to_string (number n) = none
to_string (text s) = some s
to_string (array xs) = none
to_string (object fs) = none

-- Into a `json.Number`. A text is a number only if it is spelled as one, which the empty text is not;
-- the program comes here with no other text.
unfoldable pub to_number : Json → Option String
to_number null = some ""
to_number (boolean b) = none
to_number (number n) = some n
to_number (text s) = none
to_number (array xs) = none
to_number (object fs) = none

items : Items → List Json
items nil = []
items (cons x xs) = x ∷ items xs

-- Into a `[]json.RawMessage`: a null leaves the nil slice.
unfoldable pub to_raw_list : Json → Option (List Json)
unfolding items
to_raw_list null = some []
to_raw_list (boolean b) = none
to_raw_list (number n) = none
to_raw_list (text s) = none
to_raw_list (array xs) = some (items xs)
to_raw_list (object fs) = none

strings : Items → Option (List String)
strings nil = some []
strings (cons x xs) = elim (to_string x) [
  | none ↦ none
  | some s ↦ elim (strings xs) [ none ↦ none | some ss ↦ some (s ∷ ss) ]
]

-- Into a `[]string`.
unfoldable pub to_string_list : Json → Option (List String)
unfolding strings to_string
to_string_list null = some []
to_string_list (boolean b) = none
to_string_list (number n) = none
to_string_list (text s) = none
to_string_list (array xs) = strings xs
to_string_list (object fs) = none

-- The value of a key in a `map[string]json.RawMessage`: the last of an object's fields of that name.
unfoldable pub field_of : String → Fields → Option Json
field_of k end = none
field_of k (field j v fs) = elim (field_of k fs) [
  | some w ↦ some w
  | none ↦ if j == k then some v else none
]

-- The fields of an object, where a null leaves the nil map; `none` where the decoding fails.
unfoldable pub to_raw_map : Json → Option (String → Option Json)
unfolding field_of
to_raw_map null = some (λ k. none)
to_raw_map (boolean b) = none
to_raw_map (number n) = none
to_raw_map (text s) = none
to_raw_map (array xs) = none
to_raw_map (object fs) = some (λ k. field_of k fs)
