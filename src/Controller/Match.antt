-- ===== src/Controller/Match.antt =====
-- internal/controller/pool_match.go, and the counts by pool of scale_up.go.
pub mod Laws
pub mod Room
use kamatera_autoscaler.Base.{
  ℕ, Bool, true, false, not, ◌||◌, if◌then◌else◌, String, ◌==◌, contains_text, List, [], ◌∷◌, any,
  Option, none, some,
}
use kamatera_autoscaler.Base.Dict.{Dict, lookup, increment}
use kamatera_autoscaler.Config.{LabelsApi, Pool, Config, pool_by_name}
use mathlib.Core.Option.{get_or}
use kamatera_autoscaler.Kube.{Pod, PodCondition, Node}

-- A condition that does not let the loop continue: the pod lacks room on the nodes there are.
abbrev pub lacks_room : PodCondition → Bool
lacks_room c =
    if not (c.kind == "PodScheduled") || not (c.status == "False")
    then false
    else if not (c.reason == "Unschedulable")
    then false
    else contains_text c.message "Insufficient cpu"
      || contains_text c.message "Insufficient memory"
      || contains_text c.message "Insufficient ephemeral-storage"

unfoldable pub is_pending_for_resources : Pod → Bool
is_pending_for_resources p =
    if not (p.phase == "Pending") then false else any lacks_room p.conditions

module _ (L : LabelsApi) where
  open L use {Selector, matches}

  abbrev pub pool_matches : Dict String → Pool Selector → Bool
  pool_matches labels pool = elim pool.parsed_selector [ none ↦ false | some s ↦ matches s labels ]

  unfoldable pub first_match : Dict String → List (Pool Selector) → Option (Pool Selector)
  first_match labels [] = none
  first_match labels (p ∷ ps) = if pool_matches labels p then some p else first_match labels ps

  abbrev asks_nothing : Dict String → Bool
  asks_nothing [] = true
  asks_nothing (l ∷ ls) = false

  unfoldable pub pool_for_pod : {T : Type 0} → Pod → Config Selector T → Option (Pool Selector)
  unfolding first_match
  pool_for_pod p c =
      if asks_nothing p.node_selector then none else first_match p.node_selector c.pools

  -- The pool that a pod counts for in `groupPendingByPool`.
  abbrev pub wanted_pool : {T : Type 0} → Config Selector T → Pod → Option (Pool Selector)
  wanted_pool c p = if not (is_pending_for_resources p) then none else pool_for_pod p c

  -- The loop of `groupPendingByPool`, with the counts so far.
  unfoldable pub group_from : {T : Type 0} → Config Selector T → Dict ℕ → List Pod → Dict ℕ
  group_from c out [] = out
  group_from c out (p ∷ ps) =
      group_from c (elim (wanted_pool c p) [ none ↦ out | some pool ↦ increment pool.name out ]) ps

  unfoldable pub group_pending_by_pool : {T : Type 0} → List Pod → Config Selector T → Dict ℕ
  unfolding group_from
  group_pending_by_pool pods c = group_from c [] pods

unfoldable pub pool_for_node : {S T : Type 0} → Node → Config S T → Option (Pool S)
pool_for_node n c =
    let name = get_or (lookup "pool" n.labels) "" in
    if name == "" then none else pool_by_name c name

unfoldable pub count_from : Dict ℕ → List Node → Dict ℕ
count_from out [] = out
count_from out (n ∷ ns) =
    count_from (elim (lookup "pool" n.labels) [ none ↦ out | some name ↦ increment name out ]) ns

unfoldable pub count_nodes_by_pool : List Node → Dict ℕ
unfolding count_from
count_nodes_by_pool nodes = count_from [] nodes
