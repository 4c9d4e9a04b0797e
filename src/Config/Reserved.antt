-- ===== src/Config/Reserved.antt =====
-- internal/config/reserved.go: the keys that the YAML file may not have. gopkg.in/yaml.v3 gives the
-- nodes, with the kinds that it decodes.
pub mod Laws
use kamatera_autoscaler.Base.{
  ℤ, Bool, if◌then◌else◌, String, List, [], ◌∷◌, any, Option, none, some,
}
use kamatera_autoscaler.Base.Codes.{codes, to_lower, same_codes}

pub data Kind : Type 0 where
  document sequence mapping scalar alias : Kind

-- The fields of `yaml.Node` that the walk reads: the kind, the value, the line and the content. The
-- content of a mapping is its keys and values in turn.
mutual
  pub data Node : Type 0 where
    node : Kind → String → ℤ → Nodes → Node

  pub data Nodes : Type 0 where
    nil : Nodes
    cons : Node → Nodes → Nodes

-- What the error names.
pub record KeyUse : Type 0 where
  pub key : String
  pub line : ℤ

abbrev pub reserved_fields : List String
reserved_fields =
    "kamatera_client_id" ∷ "kamatera_secret" ∷ "api_client_id" ∷ "api_secret" ∷ "join_token"
    ∷ "k3s_token" ∷ "ssh_pub_key" ∷ "ssh_key" ∷ "creds" ∷ "credentials" ∷ "secrets" ∷ []

unfoldable pub is_reserved_key : String → Bool
is_reserved_key k = any (λ r. same_codes (to_lower k) (codes r)) reserved_fields

-- The test of a key in a mapping: a use of a reserved field, if the key is a scalar.
abbrev pub reserved_use : Node → Option KeyUse
reserved_use (node scalar k line c) =
    if is_reserved_key k then some (record { key = k; line = line }) else none
reserved_use (node document k line c) = none
reserved_use (node sequence k line c) = none
reserved_use (node mapping k line c) = none
reserved_use (node alias k line c) = none

-- `if err := ...; err != nil { return err }`
abbrev pub or_then {ℓ} : {A : Type ℓ} → Option A → Option A → Option A
or_then none y = y
or_then (some x) y = some x

unfoldable mutual
  pub walk_forbidden_keys : Node → Option KeyUse
  walk_forbidden_keys (node document v l c) = walk_all c
  walk_forbidden_keys (node mapping v l c) = walk_pairs c
  walk_forbidden_keys (node sequence v l c) = walk_all c
  walk_forbidden_keys (node scalar v l c) = none
  walk_forbidden_keys (node alias v l c) = none

  pub walk_all : Nodes → Option KeyUse
  walk_all nil = none
  walk_all (cons n ns) = or_then (walk_forbidden_keys n) (walk_all ns)

  -- A last key without a value is tested alone.
  pub walk_pairs : Nodes → Option KeyUse
  walk_pairs nil = none
  walk_pairs (cons k nil) = reserved_use k
  walk_pairs (cons k (cons v rest)) =
      or_then (reserved_use k) (or_then (walk_forbidden_keys v) (walk_pairs rest))

-- The loop over the documents that the decoder gives before the end or a syntax error.
unfoldable pub reject_reserved_fields : List Node → Option KeyUse
reject_reserved_fields [] = none
reject_reserved_fields (d ∷ ds) = or_then (walk_forbidden_keys d) (reject_reserved_fields ds)
