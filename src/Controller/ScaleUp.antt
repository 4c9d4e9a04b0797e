-- ===== src/Controller/ScaleUp.antt =====
-- internal/controller/scale_up.go: a scale-up cycle, and the creation of one node.
pub mod Create
pub mod Bounds
pub mod Starts
use kamatera_autoscaler.Base.{
  ℕ, zero, suc, ◌+◌, ◌/◌, ℤ, pos, negsuc, pos_part, sub_ℕ, ◌-ℤ◌, leb_ℤ, ltb_ℤ, if◌then◌else◌,
  String, ◌<>◌, List, [], ◌∷◌, ◌++◌, Option, none, some, ok, err,
}
use kamatera_autoscaler.Base.Dict.{Dict, get_int}
use kamatera_autoscaler.Base.Decimal.{decimal, hex_byte}
use kamatera_autoscaler.Config.{Config, Pool, pool_by_name}
use kamatera_autoscaler.Controller.Host.{Host, World, ask}
use kamatera_autoscaler.Controller.Pending.{PendingTracker, add, count}
use kamatera_autoscaler.Controller.Match.{group_pending_by_pool, count_nodes_by_pool}

-- `Time.Unix` of a time in nanoseconds, rounded down.
abbrev pub unix : ℤ → ℤ
unix (pos n) = pos (n / 1000000000)
unix (negsuc n) = negsuc (n / 1000000000)

-- How many nodes a cycle asks for: 0 on the two branches that go on to the next pool.
unfoldable pub nodes_to_create : ℤ → ℕ → ℕ → ℕ → ℕ
nodes_to_create max_nodes current in_flight pending =
    let capacity = max_nodes -ℤ pos (current + in_flight) in
    let wanted = sub_ℕ pending in_flight in
    if leb_ℤ capacity (pos 0)
    then 0
    else if leb_ℤ wanted (pos 0)
    then 0
    else pos_part (if ltb_ℤ capacity wanted then capacity else wanted)

module _ (H : Host) where
  open H use {Outside, Failure, Template, cluster, now, random_bytes, labels.{Selector}}

  unfoldable pub generate_node_name : String → World Outside → String × World Outside
  generate_node_name pool_name w =
      let ((a, b, c), w1) = ask random_bytes w in
      let (t, w2) = ask now w1 in
      (
        pool_name
            <> ("-" <> (decimal (unix t) <> ("-" <> (hex_byte a <> (hex_byte b <> hex_byte c))))),
        w2,
      )

  -- The state of a cycle: the tracker, the goroutines started so far, oldest first, and the world.
  pub record Cycle : Type 0 where
    pub creating : PendingTracker
    pub started : List (Pool Selector × String)
    pub world : World Outside

  -- One pass of the loop over `toCreate`.
  unfoldable pub start_node : String → Pool Selector → Cycle → Cycle
  unfolding generate_node_name
  start_node pool_name pool s =
      let (node_name, w1) = generate_node_name pool_name s.world in
      let (gc_now, w2) = ask now w1 in
      let (created_at, w3) = ask now w2 in
      let (added, t) = add pool_name node_name gc_now created_at s.creating in
      record {
        creating = t;
        started = if added then s.started ++ ((pool, node_name) ∷ []) else s.started;
        world = w3;
      }

  unfoldable pub start_nodes : ℕ → String → Pool Selector → Cycle → Cycle
  start_nodes zero pool_name pool s = s
  start_nodes (suc n) pool_name pool s = start_nodes n pool_name pool (start_node pool_name pool s)

  -- One pass of the loop over the pools with pending pods.
  unfoldable pub scale_up_pool : Config Selector Template → Dict ℕ → String × ℕ → Cycle → Cycle
  unfolding start_nodes
  scale_up_pool c nodes_by_pool (pool_name, pending) s = elim (pool_by_name c pool_name) [
    | none ↦ s
    | some pool ↦
        let (t, w) = ask now s.world in
        let (in_flight, u) = count pool_name t s.creating in
        start_nodes
          (nodes_to_create pool.max_nodes (get_int pool_name nodes_by_pool) in_flight pending)
          pool_name pool (record s { creating = u; world = w })
  ]

  unfoldable pub scale_up_pools : Config Selector Template → Dict ℕ → Dict ℕ → Cycle → Cycle
  scale_up_pools c nodes_by_pool [] s = s
  scale_up_pools c nodes_by_pool (p ∷ ps) s =
      scale_up_pools c nodes_by_pool ps (scale_up_pool c nodes_by_pool p s)

  -- `scaleUp`. The argument `visit` is the order in which Go's `range` visits the counted pools.
  unfoldable pub scale_up :
      Config Selector Template
      → (Dict ℕ → Dict ℕ)
      → PendingTracker
      → World Outside
      → Option Failure × Cycle
  unfolding scale_up_pools
  scale_up c visit creating w =
      let (pods, w1) = ask cluster.list_pending_pods w in
      elim pods [
        | err e ↦ (some e, record { creating = creating; started = []; world = w1 })
        | ok pending ↦
            let (listed, w2) = ask cluster.list_nodes w1 in
            elim listed [
              | err e ↦ (some e, record { creating = creating; started = []; world = w2 })
              | ok nodes ↦ (
                none,
                scale_up_pools c (count_nodes_by_pool nodes)
                    (visit (group_pending_by_pool H.labels pending c))
                    (record { creating = creating; started = []; world = w2 }),
              )
            ]
      ]
