-- ===== src/Controller/ScaleDown.antt =====
-- internal/controller/scale_down.go: a scale-down cycle. `none` where the fuel of a drain runs out.
pub mod Guards
pub mod Bounds
pub mod Creations
pub mod Losses
pub mod Ends
use kamatera_autoscaler.Base.{
  ℕ, ◌-◌, pos, ◌-ℤ◌, leb_ℤ, Bool, true, false, not, ◌||◌, if◌then◌else◌, String, ◌==◌, List, [],
  ◌∷◌, Option, none, some, Result, ok, err,
}
use kamatera_autoscaler.Base.Dict.{Dict, get_int, insert}
use kamatera_autoscaler.Config.{Config}
use kamatera_autoscaler.Kube.{Pod, Node}
use kamatera_autoscaler.Controller.Host.{Host, World, ask, change, deletes, terminates}
use kamatera_autoscaler.Controller.Match.{count_nodes_by_pool, pool_for_node}
use kamatera_autoscaler.Controller.Drain.{is_daemon_set_pod, is_mirror_pod, drain_node}
use kamatera_autoscaler.Controller.Options.{Options}

-- A pod that shows that its node is not idle.
abbrev pub is_workload : Pod → Bool
is_workload p =
    if is_daemon_set_pod p || is_mirror_pod p
    then false
    else not (p.phase == "Succeeded" || p.phase == "Failed")

-- The loop of `isNodeIdle`.
unfoldable pub are_idle : List Pod → Bool
are_idle [] = true
are_idle (p ∷ ps) = if is_workload p then false else are_idle ps

module _ (H : Host) (o : Options) where
  open H use {
    Outside,
    Failure,
    Template,
    cluster,
    cloud,
    now,
    is_server_not_found,
    labels.{Selector},
  }

  unfoldable pub is_node_old_enough : Node → World Outside → Bool × World Outside
  is_node_old_enough n w = elim n.creation_timestamp [
    | none ↦ (true, w)
    | some created ↦ let (t, w1) = ask now w in (leb_ℤ o.idle_threshold (t -ℤ created), w1)
  ]

  unfoldable pub is_node_idle : Node → World Outside → Result Failure Bool × World Outside
  is_node_idle n w =
      let (r, w1) = ask (cluster.list_pods_on_node n.name) w in
      (elim r [ ok ps ↦ ok (are_idle ps) | err e ↦ err e ], w1)

  delete_node_object : String → World Outside → Result Failure (Unit {0}) × World Outside
  delete_node_object node_name = change (deletes node_name) (cluster.delete node_name)

  unfoldable pub terminate_and_delete :
      String → World Outside → Result Failure (Unit {0}) × World Outside
  unfolding delete_node_object
  terminate_and_delete node_name w =
      let (found, w1) = ask (cloud.find_server_by_name node_name) w in
      elim found [
        | err e ↦ if is_server_not_found e then delete_node_object node_name w1 else (err e, w1)
        | ok srv ↦
            let (r, w2) = change (terminates srv.id) (cloud.terminate_server srv.id) w1 in
            elim r [
              | err e ↦ (err e, w2)
              | ok cmd_id ↦
                  let (_, w3) = ask (cloud.wait_terminate cmd_id o.node_ready_timeout) w2 in
                  delete_node_object node_name w3
            ]
      ]

  -- The part of a pass that changes something: whether it all succeeded.
  unfoldable pub remove_node : ℕ → Node → World Outside → Option (Bool × World Outside)
  remove_node fuel n w = elim (drain_node H fuel n.name o.drain_timeout w) [
    | none ↦ none
    | some (r, w1) ↦ elim r [
      | err e ↦ some (false, w1)
      | ok _ ↦
          let (s, w2) = terminate_and_delete n.name w1 in
          some (elim s [ ok _ ↦ (true, w2) | err e ↦ (false, w2) ])
    ]
  ]

  -- One pass of the loop over the nodes.
  unfoldable pub scale_down_node :
      ℕ → Config Selector Template → Dict ℕ → Node → World Outside → Option (Bool × World Outside)
  scale_down_node fuel c by_pool n w = elim (pool_for_node n c) [
    | none ↦ some (false, w)
    | some pool ↦
        if leb_ℤ (pos (get_int pool.name by_pool)) pool.min_nodes
        then some (false, w)
        else let (old, w1) = is_node_old_enough n w in
          if not old
          then some (false, w1)
          else let (idle, w2) = is_node_idle n w1 in
            elim idle [
              | err e ↦ some (false, w2)
              | ok false ↦ some (false, w2)
              | ok true ↦ remove_node fuel n w2
            ]
  ]

  -- The counts after a pass: a node whose removal succeeded is taken off its
  -- pool.
  abbrev pub count_down : Config Selector Template → Node → Bool → Dict ℕ → Dict ℕ
  count_down c n gone by_pool = elim (pool_for_node n c) [
    | none ↦ by_pool
    | some pool ↦ if gone then insert pool.name (get_int pool.name by_pool - 1) by_pool else by_pool
  ]

  -- What a cycle leaves: the nodes that it took off the counts, newest first, the counts and the world.
  -- A node whose server is terminated and whose deletion fails is not among them.
  pub record Sweep : Type 0 where
    pub counted_down : List Node
    pub by_pool : Dict ℕ
    pub world : World Outside

  unfoldable pub scale_down_nodes : ℕ → Config Selector Template → List Node → Sweep → Option Sweep
  scale_down_nodes fuel c [] s = some s
  scale_down_nodes fuel c (n ∷ ns) s = elim (scale_down_node fuel c s.by_pool n s.world) [
    | none ↦ none
    | some (gone, w) ↦ scale_down_nodes fuel c ns (record {
      counted_down = if gone then n ∷ s.counted_down else s.counted_down;
      by_pool = count_down c n gone s.by_pool;
      world = w;
    })
  ]

  unfoldable pub scale_down :
      ℕ → Config Selector Template → World Outside → Option (Option Failure × Sweep)
  scale_down fuel c w =
      let (listed, w1) = ask cluster.list_nodes w in
      elim listed [
        | err e ↦ some (some e, record { counted_down = []; by_pool = []; world = w1 })
        | ok nodes ↦
            elim (scale_down_nodes fuel c nodes
              (record { counted_down = []; by_pool = count_nodes_by_pool nodes; world = w1 })) [
                | none ↦ none
                | some s ↦ some (none, s)
              ]
      ]
