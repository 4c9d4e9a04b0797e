-- ===== src/Config/Reserved/Laws.antt =====
-- The walk over the YAML (internal/config/reserved.go) against a plain list of all keys.
use kamatera_autoscaler.Base.{
  if◌then◌else◌, List, [], ◌∷◌, ◌++◌, Option, none, some, ◌≡◌, refl, arith,
}
use kamatera_autoscaler.Config.Reserved.{
  document, sequence, mapping, scalar, alias, Node, Nodes, node, nil, cons, KeyUse, is_reserved_key,
  reserved_use, or_then, walk_forbidden_keys, walk_all, walk_pairs, reject_reserved_fields,
}

-- A key of a mapping as it would be reported, if it is a scalar.
abbrev key_use : Node → List KeyUse
key_use (node scalar k line c) = record { key = k; line = line } ∷ []
key_use (node document k line c) = []
key_use (node sequence k line c) = []
key_use (node mapping k line c) = []
key_use (node alias k line c) = []

-- All scalar keys of the mappings of a node, in the order of the text.
mutual
  pub keys : Node → List KeyUse
  keys (node document v l c) = keys_all c
  keys (node mapping v l c) = keys_pairs c
  keys (node sequence v l c) = keys_all c
  keys (node scalar v l c) = []
  keys (node alias v l c) = []

  pub keys_all : Nodes → List KeyUse
  keys_all nil = []
  keys_all (cons n ns) = keys n ++ keys_all ns

  pub keys_pairs : Nodes → List KeyUse
  keys_pairs nil = []
  keys_pairs (cons k nil) = key_use k
  keys_pairs (cons k (cons v rest)) = key_use k ++ (keys v ++ keys_pairs rest)

pub keys_of : List Node → List KeyUse
keys_of [] = []
keys_of (d ∷ ds) = keys d ++ keys_of ds

pub first_reserved : List KeyUse → Option KeyUse
first_reserved [] = none
first_reserved (u ∷ us) = if is_reserved_key u.key then some u else first_reserved us

first_reserved-append :
    (us vs : List KeyUse)
    → first_reserved (us ++ vs) ≡ or_then (first_reserved us) (first_reserved vs)
unfolding first_reserved
first_reserved-append [] vs = refl
first_reserved-append (u ∷ us) vs = ground (arith, first_reserved-append us vs)

reserved_use_first : (k : Node) → reserved_use k ≡ first_reserved (key_use k)
unfolding first_reserved
reserved_use_first (node scalar k l c) = refl
reserved_use_first (node document k l c) = refl
reserved_use_first (node sequence k l c) = refl
reserved_use_first (node mapping k l c) = refl
reserved_use_first (node alias k l c) = refl

mutual
  unfolding walk_forbidden_keys keys first_reserved

  walk_forbidden_keys_first : (n : Node) → walk_forbidden_keys n ≡ first_reserved (keys n)
  walk_forbidden_keys_first (node document v l c) = walk_all_first c
  walk_forbidden_keys_first (node mapping v l c) = walk_pairs_first c
  walk_forbidden_keys_first (node sequence v l c) = walk_all_first c
  walk_forbidden_keys_first (node scalar v l c) = refl
  walk_forbidden_keys_first (node alias v l c) = refl

  walk_all_first : (ns : Nodes) → walk_all ns ≡ first_reserved (keys_all ns)
  walk_all_first nil = refl
  walk_all_first (cons n ns) =
      cc (
        walk_forbidden_keys_first n,
        walk_all_first ns,
        first_reserved-append (keys n) (keys_all ns),
      )

  walk_pairs_first : (ns : Nodes) → walk_pairs ns ≡ first_reserved (keys_pairs ns)
  walk_pairs_first nil = refl
  walk_pairs_first (cons k nil) = reserved_use_first k
  walk_pairs_first (cons k (cons v rest)) = cc (
    reserved_use_first k,
    walk_forbidden_keys_first v,
    walk_pairs_first rest,
    first_reserved-append (key_use k) (keys v ++ keys_pairs rest),
    first_reserved-append (keys v) (keys_pairs rest),
  )

pub reject_reserved_fields-first_reserved :
    (ds : List Node) → reject_reserved_fields ds ≡ first_reserved (keys_of ds)
unfolding reject_reserved_fields keys_of first_reserved
reject_reserved_fields-first_reserved [] = refl
reject_reserved_fields-first_reserved (d ∷ ds) = cc (
  walk_forbidden_keys_first d,
  reject_reserved_fields-first_reserved ds,
  first_reserved-append (keys d) (keys_of ds),
)
