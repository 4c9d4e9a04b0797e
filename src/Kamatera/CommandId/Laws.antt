-- ===== src/Kamatera/CommandId/Laws.antt =====
-- Which ids `decodeCommandID` (internal/kamatera/client.go) finds, and when it takes an empty one.
use kamatera_autoscaler.Base.{
  String, List, [], ◌∷◌, Option, none, some, ◌≡◌, ◌≢◌, ◌↔◌, refl, arith, ◌⊎◌, inl, inr,
  Option-cases, List-cases, ap, sym, ◌∙◌,
}
use kamatera_autoscaler.Kamatera.Json.{
  Json, null, boolean, number, text, array, object, Items, nil, cons, Fields, to_string, to_number,
  to_raw_list, to_string_list, to_raw_map, field_of,
}
use kamatera_autoscaler.Kamatera.CommandId.{
  non_empty, or_else, from_head, from_array, from_key, from_id, from_object, decode_command_id,
}

-- An array that begins with a text other than the empty one, or with a number, gives that.
pub decode_command_id-array :
    (s : String) (rest : Items)
    → s ≢ ""
    → (decode_command_id (some (array (cons (text s) rest))) ≡ some s)
      × (decode_command_id (some (array (cons (number s) rest))) ≡ some s)
unfolding decode_command_id from_array from_head non_empty to_string to_number to_raw_list
decode_command_id-array s rest ne = ground arith

-- Under the key stands a list of texts that begins with the empty one, or with a null.
abbrev pub BlankUnder : (String → Option Json) → String → Type 0
BlankUnder obj k =
    (v : Json) × (obj k ≡ some v) × ((ss : List String) × (to_string_list v ≡ some ("" ∷ ss)))

-- Under the key stands no list of texts, or the empty one.
abbrev pub NothingUnder : (String → Option Json) → String → Type 0
NothingUnder obj k =
    (obj k ≡ none)
    ⊎ ((v : Json) × (obj k ≡ some v) × ((to_string_list v ≡ none) ⊎ (to_string_list v ≡ some [])))

-- The responses in which an id stands, and is empty.
abbrev pub HasBlankId : Json → Type 0
HasBlankId null = ⊥
HasBlankId (boolean b) = ⊥
HasBlankId (number n) = ⊥
HasBlankId (text s) = ⊥
HasBlankId (array nil) = ⊥
HasBlankId (array (cons x xs)) = (x ≡ null) ⊎ (x ≡ number "")
HasBlankId (object fs) =
    let obj = λ (k : String). field_of k fs in
    BlankUnder obj "commandIds"
    ⊎ ((NothingUnder obj "commandIds" × BlankUnder obj "commandIDs")
        ⊎ (NothingUnder obj "commandIds"
            × NothingUnder obj "commandIDs"
            × BlankUnder obj "command_ids"))

from_key-blank :
    (obj : String → Option Json) (k : String) → (from_key obj k ≡ some "") ↔ BlankUnder obj k
unfolding from_key
from_key-blank obj k = (
  λ h. elim (Option-cases (obj k)) [
    | inl missing ↦ ground arith
    | inr (v, e) ↦ elim (Option-cases (to_string_list v)) [
      | inl other ↦ ground arith
      | inr (ss, f) ↦ elim (List-cases ss) [
        | inl empty ↦ ground arith
        | inr (s, rest, g) ↦ (v, e, (rest, f ∙ ap some (g ∙ ap (λ t. t ∷ rest) (ground arith))))
      ]
    ]
  ],
  λ h. ground arith,
)

from_key-nothing :
    (obj : String → Option Json) (k : String) → (from_key obj k ≡ none) ↔ NothingUnder obj k
unfolding from_key
from_key-nothing obj k = (
  λ h. elim (Option-cases (obj k)) [
    | inl missing ↦ inl missing
    | inr (v, e) ↦ elim (Option-cases (to_string_list v)) [
      | inl other ↦ inr (v, e, inl other)
      | inr (ss, f) ↦ elim (List-cases ss) [
        | inl empty ↦ inr (v, e, inr (ground arith))
        | inr (s, rest, g) ↦ ground arith
      ]
    ]
  ],
  λ h. ground arith,
)

from_id_lem : (obj : String → Option Json) → from_id obj ≢ some ""
unfolding from_id non_empty
from_id_lem obj = ground arith

from_head_blank : (x : Json) → (from_head x ≡ some "") ↔ ((x ≡ null) ⊎ (x ≡ number ""))
unfolding from_head non_empty to_string to_number
from_head_blank null = ground arith
from_head_blank _ = ground arith

non_empty_lem : (o : Option String) → non_empty o ≢ some ""
unfolding non_empty
non_empty_lem none = cc
non_empty_lem (some s) = ground arith

-- The first of three finds, and a last one that is never blank.
or_else_blank :
    (a b c d : Option String)
    → d ≢ some ""
    → (or_else a (or_else b (or_else c d)) ≡ some "")
      ↔ ((a ≡ some "") ⊎ (((a ≡ none) × (b ≡ some "")) ⊎ ((a ≡ none) × (b ≡ none) × (c ≡ some ""))))
or_else_blank a b c d h = ground arith

from_object_blank : (fs : Fields) → (from_object (object fs) ≡ some "") ↔ HasBlankId (object fs)
unfolding from_object to_raw_map
from_object_blank fs =
    let obj = λ (k : String). field_of k fs in
    let (to, back) =
      or_else_blank (from_key obj "commandIds") (from_key obj "commandIDs")
        (from_key obj "command_ids") (from_id obj) (from_id_lem obj) in
    let (ba, ab) = from_key-blank obj "commandIds" in
    let (bb, bb') = from_key-blank obj "commandIDs" in
    let (bc, cb) = from_key-blank obj "command_ids" in
    let (na, an) = from_key-nothing obj "commandIds" in
    let (nb, bn) = from_key-nothing obj "commandIDs" in
    (
      λ h. elim (to h) [
        | inl a ↦ inl (ba a)
        | inr (inl (a, b)) ↦ inr (inl (na a, bb b))
        | inr (inr (a, b, c)) ↦ inr (inr (na a, nb b, bc c))
      ],
      λ h. elim h [
        | inl a ↦ back (inl (ab a))
        | inr (inl (a, b)) ↦ back (inr (inl (an a, bb' b)))
        | inr (inr (a, b, c)) ↦ back (inr (inr (an a, bn b, cb c)))
      ],
    )

null_lem : decode_command_id (some null) ≢ some ""
unfolding decode_command_id from_array from_object from_key from_id to_string to_raw_list to_raw_map
null_lem = ground (arith, non_empty_lem (some ""))

decode_object : (fs : Fields) → decode_command_id (some (object fs)) ≡ from_object (object fs)
unfolding decode_command_id from_array non_empty to_string to_raw_list
decode_object fs = refl

-- The decoding takes the empty string for a command id exactly on the responses that have a blank
-- one: an array that begins with a null or an empty number, or an object whose first list of ids
-- begins with an empty text or a null.
pub decode_command_id_blank : (j : Json) → (decode_command_id (some j) ≡ some "") ↔ HasBlankId j
unfolding decode_command_id from_array from_object to_string to_raw_list to_raw_map
decode_command_id_blank null = ground (arith, null_lem)
decode_command_id_blank (boolean b) = ground (arith, non_empty_lem none)
decode_command_id_blank (number n) = ground (arith, non_empty_lem none)
decode_command_id_blank (text s) = ground (arith, non_empty_lem (some s))
decode_command_id_blank (array nil) = ground (arith, non_empty_lem none)
decode_command_id_blank (array (cons x xs)) = ground (arith, non_empty_lem none, from_head_blank x)
decode_command_id_blank (object fs) = (
  λ h. (from_object_blank fs).0 (sym (decode_object fs) ∙ h),
  λ h. decode_object fs ∙ (from_object_blank fs).1 h,
)
