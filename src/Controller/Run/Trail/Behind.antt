-- ===== src/Controller/Run/Trail/Behind.antt =====
-- The scale-up cycles of internal/controller/scale_up.go behind creations that other cycles started.
use kamatera_autoscaler.Base.{
  ℕ, zero, suc, String, List, [], ◌∷◌, ◌++◌, ◌≡◌, refl, inl, inr, ap, ◌∙◌, Option-cases,
}
use kamatera_autoscaler.Base.Dict.{Dict, get_int}
use kamatera_autoscaler.Config.{Config, Pool, pool_by_name}
use kamatera_autoscaler.Controller.Host.{Host, ask}
use kamatera_autoscaler.Controller.Pending.{add, count}
use kamatera_autoscaler.Controller.ScaleUp.{
  Cycle, generate_node_name, start_node, start_nodes, scale_up_pool, scale_up_pools,
  nodes_to_create,
}
use kamatera_autoscaler.Controller.Run.Cycles.{if_append}

module _ (H : Host) (c : Config H.labels.Selector H.Template) where
  open H use {Outside, cluster, now, labels.{Selector}}

  -- A cycle behind creations from before.
  abbrev pub behind : List (Pool Selector × String) → Cycle H → Cycle H
  behind xs s = record s { started = xs ++ s.started }

  start_node-behind :
      (name : String) (pool : Pool Selector) (xs : List (Pool Selector × String)) (s : Cycle H)
      → start_node H name pool (behind xs s) ≡ behind xs (start_node H name pool s)
  unfolding start_node
  start_node-behind name pool xs s =
      let (node_name, w1) = generate_node_name H name s.world in
      let (gc_now, w2) = ask H.now w1 in
      let (created_at, w3) = ask H.now w2 in
      let (added, t) = add name node_name gc_now created_at s.creating in
      ap (λ l. record { creating = t; started = l; world = w3 })
        (if_append added xs s.started ((pool, node_name) ∷ []))

  start_nodes-behind :
      (n : ℕ) (name : String) (pool : Pool Selector) (xs : List (Pool Selector × String))
      (s : Cycle H)
      → start_nodes H n name pool (behind xs s) ≡ behind xs (start_nodes H n name pool s)
  unfolding start_nodes
  start_nodes-behind zero name pool xs s = refl
  start_nodes-behind (suc n) name pool xs s =
      ap (start_nodes H n name pool) (start_node-behind name pool xs s)
      ∙ start_nodes-behind n name pool xs (start_node H name pool s)

  scale_up_pool-behind :
      (nodes : Dict ℕ) (p : String × ℕ) (xs : List (Pool Selector × String)) (s : Cycle H)
      → scale_up_pool H c nodes p (behind xs s) ≡ behind xs (scale_up_pool H c nodes p s)
  unfolding scale_up_pool
  scale_up_pool-behind nodes (name, pending) xs s = elim (Option-cases (pool_by_name c name)) [
    | inl missing ↦ rw (missing, scale_up_pool) refl
    | inr (pool, found) ↦
        rw (found, scale_up_pool)
          (let (t, w) = ask now s.world in
            let (in_flight, u) = count name t s.creating in
            start_nodes-behind
              (nodes_to_create pool.max_nodes (get_int name nodes) in_flight pending) name pool xs
              (record s { creating = u; world = w }))
  ]

  pub scale_up_pools-behind :
      (nodes ps : Dict ℕ) (xs : List (Pool Selector × String)) (s : Cycle H)
      → scale_up_pools H c nodes ps (behind xs s) ≡ behind xs (scale_up_pools H c nodes ps s)
  unfolding scale_up_pools
  scale_up_pools-behind nodes [] xs s = refl
  scale_up_pools-behind nodes (p ∷ ps) xs s =
      ap (scale_up_pools H c nodes ps) (scale_up_pool-behind nodes p xs s)
      ∙ scale_up_pools-behind nodes ps xs (scale_up_pool H c nodes p s)
