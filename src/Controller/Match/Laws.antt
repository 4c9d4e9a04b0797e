-- ===== src/Controller/Match/Laws.antt =====
-- What the matching of pods and nodes to pools (internal/controller/pool_match.go) finds, and what
-- the counts by pool of scale_up.go count.

use kamatera_autoscaler.Base.{
  ℕ, ◌+◌, Bool, true, false, String, ◌==◌, List, [], ◌∷◌, ◌++◌, All, count_if, none, some, ◌≡◌, ◌≢◌,
  arith, Option-cases, Bool-cases, ap, ◌⊎◌, inl, inr,
}
use kamatera_autoscaler.Base.Dict.{Dict, lookup, get_int, increment, get_int-increment}
use kamatera_autoscaler.Config.{LabelsApi, Pool, Config}
use kamatera_autoscaler.Kube.{Pod, Node}
use kamatera_autoscaler.Controller.Match.Room.{LacksRoom}
use kamatera_autoscaler.Controller.Match.{
  pool_matches, first_match, pool_for_pod, wanted_pool, count_from, count_nodes_by_pool,
}

module _ (L : LabelsApi) where
  open L use {Selector, matches}

  -- A pool is the first that matches if those before it do not.
  pub record IsFirstMatch (labels : Dict String) (pools : List (Pool Selector)) (q : Pool Selector)
      : Type 0 where
    pub before : List (Pool Selector)
    pub after : List (Pool Selector)
    pub split : pools ≡ before ++ q ∷ after
    pub skipped : All (λ p. pool_matches L labels p ≡ false) before
    pub hit : pool_matches L labels q ≡ true

  first_match-IsFirstMatch :
      (labels : Dict String) (ps : List (Pool Selector)) (q : Pool Selector)
      → first_match L labels ps ≡ some q
      → IsFirstMatch labels ps q
  unfolding first_match
  first_match-IsFirstMatch labels [] q h = cc
  first_match-IsFirstMatch labels (p ∷ ps) q h = elim (Bool-cases (pool_matches L labels p)) [
    | inl hit ↦ record {
      before = [];
      after = ps;
      split = ground arith;
      skipped = tt;
      hit = ground arith;
    }
    | inr miss ↦
        let r = first_match-IsFirstMatch labels ps q (ground arith) in
        record {
          before = p ∷ r.before;
          after = r.after;
          split = ap (◌∷◌ p) r.split;
          skipped = (miss, r.skipped);
          hit = r.hit;
        }
  ]

  first_match-none :
      (labels : Dict String) (ps : List (Pool Selector))
      → first_match L labels ps ≡ none
      → All (λ p. pool_matches L labels p ≡ false) ps
  unfolding first_match
  first_match-none labels [] h = tt
  first_match-none labels (p ∷ ps) h = ground (arith, first_match-none labels ps)

  -- The pool of a pod is the first in the configuration whose parsed selector matches the pod's node
  -- selector, and the pod has one.
  pub pool_for_pod-IsFirstMatch :
      {T : Type 0} (p : Pod) (c : Config Selector T) (q : Pool Selector)
      → pool_for_pod L p c ≡ some q
      → (p.node_selector ≢ []) × IsFirstMatch p.node_selector c.pools q
  unfolding pool_for_pod
  pool_for_pod-IsFirstMatch p c q h =
      (ground arith, first_match-IsFirstMatch p.node_selector c.pools q (ground arith))

  -- A pod has no pool only if it has no node selector or no pool's selector matches.
  pub pool_for_pod-none :
      {T : Type 0} (p : Pod) (c : Config Selector T)
      → pool_for_pod L p c ≡ none
      → (p.node_selector ≡ []) ⊎ All (λ q. pool_matches L p.node_selector q ≡ false) c.pools
  unfolding pool_for_pod
  pool_for_pod-none p c h = ground (arith, first_match-none p.node_selector c.pools)

  -- A pod that lacks room on the nodes there are, and whose pool has the name.
  pub record Wants {T : Type 0} (c : Config Selector T) (name : String) (p : Pod) : Type 0 where
    pub pending : LacksRoom p
    pub selects : p.node_selector ≢ []
    pub pool : Pool Selector
    pub first : IsFirstMatch p.node_selector c.pools pool
    pub named : pool.name ≡ name

  abbrev pub wants : {T : Type 0} → Config Selector T → String → Pod → Bool
  wants c name p = elim (wanted_pool L c p) [ none ↦ false | some q ↦ q.name == name ]

-- A node that carries the label `pool` with the name.
abbrev pub is_in_pool : String → Node → Bool
is_in_pool name n = elim (lookup "pool" n.labels) [ none ↦ false | some pool ↦ pool == name ]

count_from-count :
    (name : String) (out : Dict ℕ) (ns : List Node)
    → get_int name (count_from out ns) ≡ get_int name out + count_if (is_in_pool name) ns
unfolding count_from
count_from-count name out [] = omega arith
count_from-count name out (n ∷ ns) = elim (Option-cases (lookup "pool" n.labels)) [
  | inl e ↦ ground (arith, count_from-count name out ns)
  | inr (q, e) ↦
      rw (e, count_from)
        (ground (arith, count_from-count name (increment q out) ns, get_int-increment q name out))
]

-- `countNodesByPool` counts, for each name, the nodes that carry it as their label `pool`.
pub count_nodes_by_pool-count :
    (nodes : List Node) (name : String)
    → get_int name (count_nodes_by_pool nodes) ≡ count_if (is_in_pool name) nodes
unfolding count_nodes_by_pool lookup
count_nodes_by_pool-count nodes name = omega (arith, count_from-count name [] nodes)
