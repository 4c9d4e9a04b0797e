-- ===== src/Kamatera/CommandId.antt =====
-- `decodeCommandID` of internal/kamatera/client.go: the command id in a response. The body is what
-- encoding/json reads in it, `none` for bytes that are no JSON text.
pub mod Laws
use kamatera_autoscaler.Base.{String, ◌==◌, if◌then◌else◌, [], ◌∷◌, Option, none, some}
use kamatera_autoscaler.Kamatera.Json.{
  Json, to_string, to_number, to_raw_list, to_string_list, to_raw_map,
}

-- `s, err` with `err == nil && s != ""`
unfoldable pub non_empty : Option String → Option String
non_empty none = none
non_empty (some s) = if s == "" then none else some s

abbrev pub or_else {ℓ} : {A : Type ℓ} → Option A → Option A → Option A
or_else none o = o
or_else (some a) o = some a

-- The first element of the response as an array.
unfoldable pub from_head : Json → Option String
from_head j = elim (non_empty (to_string j)) [ some s ↦ some s | none ↦ to_number j ]

unfoldable pub from_array : Json → Option String
from_array j = elim (to_raw_list j) [
  | none ↦ none
  | some xs ↦ elim xs [ [] ↦ none | x ∷ rest ↦ from_head x ]
]

-- The first of a list of strings under a key.
unfoldable pub from_key : (String → Option Json) → String → Option String
from_key obj k = elim (obj k) [
  | none ↦ none
  | some v ↦ elim (to_string_list v) [
    | none ↦ none
    | some ss ↦ elim ss [ [] ↦ none | s ∷ rest ↦ some s ]
  ]
]

unfoldable pub from_id : (String → Option Json) → Option String
from_id obj = elim (obj "id") [ none ↦ none | some v ↦ non_empty (to_string v) ]

unfoldable pub from_object : Json → Option String
from_object j = elim (to_raw_map j) [
  | none ↦ none
  | some obj ↦
      or_else (from_key obj "commandIds")
        (or_else (from_key obj "commandIDs") (or_else (from_key obj "command_ids") (from_id obj)))
]

-- `none` is the error "no command id in response".
unfoldable pub decode_command_id : Option Json → Option String
decode_command_id none = none
decode_command_id (some j) =
    or_else (from_array j) (or_else (non_empty (to_string j)) (from_object j))
