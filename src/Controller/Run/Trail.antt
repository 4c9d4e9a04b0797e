-- ===== src/Controller/Run/Trail.antt =====
-- The loop of internal/controller/controller.go with the scale-up cycles of
-- internal/controller/scale_up.go taken apart: a cycle's calls and passes are steps of their own, with
-- those of the creations between them. A cycle of the scale-down is one step.
pub mod Plans
pub mod Tracked
pub mod Behind
pub mod Whole
pub mod Ends
pub mod Requests
use kamatera_autoscaler.Base.{ℕ, zero, suc, String, List, [], ◌∷◌, ◌++◌, none, some, ok, err, ◌≡◌}
use kamatera_autoscaler.Base.Dict.{Dict, get_int}
use kamatera_autoscaler.Config.{Config, Pool, pool_by_name}
use kamatera_autoscaler.Kube.{Pod}
use kamatera_autoscaler.Controller.Host.{Host, World, ask}
use kamatera_autoscaler.Controller.Match.{group_pending_by_pool, count_nodes_by_pool}
use kamatera_autoscaler.Controller.Options.{Options}
use kamatera_autoscaler.Controller.Pending.{count}
use kamatera_autoscaler.Controller.ScaleUp.{start_node, nodes_to_create}
use kamatera_autoscaler.Controller.Run.{
  Controller, new_controller, run_scale_down, request_creation, end_creation,
}

-- Where a scale-up cycle stands: in front of it, behind the list of the pods, in front of a pool, and
-- within the loop that starts a pool's nodes, with those that are left. The nodes by pool are those that
-- the cycle counted.
pub data Phase (S : Type 0) : Type 0 where
  idle : Phase S
  lists : List Pod → Phase S
  visits : Dict ℕ → Dict ℕ → Phase S
  starts : Dict ℕ → Dict ℕ → String → Pool S → ℕ → Phase S

module _ (H : Host) (o : Options) (c : Config H.labels.Selector H.Template) where
  open H use {Outside, cluster, now, labels.{Selector}}

  -- One pass over `toCreate`.
  unfoldable pub start_next : String → Pool Selector → Controller H o c → Controller H o c
  start_next pool_name pool s =
      let cycle =
        start_node H pool_name pool
          (record { creating = s.creating; started = s.creations; world = s.world }) in
      record s { creating = cycle.creating; creations = cycle.started; world = cycle.world }

  -- What `scaleUp` does next.
  unfoldable pub advance :
      (Dict ℕ → Dict ℕ) → Phase Selector → Controller H o c → Phase Selector × Controller H o c
  advance visit idle s =
      let (pods, w) = ask cluster.list_pending_pods s.world in
      (elim pods [ err e ↦ idle | ok pending ↦ lists pending ], record s { world = w })
  advance visit (lists pending) s =
      let (listed, w) = ask cluster.list_nodes s.world in
      (
        elim listed [
          | err e ↦ idle
          | ok nodes ↦
              visits (count_nodes_by_pool nodes) (visit (group_pending_by_pool H.labels pending c))
        ],
        record s { world = w },
      )
  advance visit (visits nodes []) s = (idle, s)
  advance visit (visits nodes ((pool_name, pending) ∷ rest)) s = elim (pool_by_name c pool_name) [
    | none ↦ (visits nodes rest, s)
    | some pool ↦
        let (t, w) = ask now s.world in
        let (in_flight, u) = count pool_name t s.creating in
        (
          starts nodes rest pool_name pool
              (nodes_to_create pool.max_nodes (get_int pool_name nodes) in_flight pending),
          record s { creating = u; world = w },
        )
  ]
  advance visit (starts nodes rest pool_name pool zero) s = (visits nodes rest, s)
  advance visit (starts nodes rest pool_name pool (suc n)) s =
      (starts nodes rest pool_name pool n, start_next pool_name pool s)

  -- A step of the loop or of a creation. The scale-down takes its turn where no scale-up cycle is under
  -- way.
  pub data Move (p q : Phase Selector) (s t : Controller H o c) : Type 0 where
    scales_up : (visit : Dict ℕ → Dict ℕ) → (q, t) ≡ advance visit p s → Move p q s t
    scales_down :
        (fuel : ℕ) → p ≡ idle → q ≡ idle → run_scale_down H o c fuel s ≡ some t → Move p q s t
    requests :
        (before after : List (Pool Selector × String)) (pool : Pool Selector) (node_name : String)
        → q ≡ p
        → s.creations ≡ before ++ (pool, node_name) ∷ after
        → t ≡ request_creation H o c pool node_name (before ++ after) s
        → Move p q s t
    finishes :
        (before after : List ((Pool Selector × String) × String)) (pool : Pool Selector)
        (node_name cmd_id : String)
        → q ≡ p
        → s.waiting ≡ before ++ ((pool, node_name), cmd_id) ∷ after
        → t ≡ end_creation H o c node_name cmd_id (before ++ after) s
        → Move p q s t

  -- The loop begins with a scale-up.
  pub data Trail (w : World Outside) : Phase Selector → Controller H o c → Type 0 where
    begins :
        (visit : Dict ℕ → Dict ℕ) (q : Phase Selector) (t : Controller H o c)
        → (q, t) ≡ advance visit idle (new_controller H o c w)
        → Trail w q t
    moves :
        {p q : Phase Selector} {s t : Controller H o c} → Trail w p s → Move p q s t → Trail w q t
