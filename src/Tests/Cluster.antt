-- ===== src/Tests/Cluster.antt =====
-- The theorems on internal/controller at concrete data.
use kamatera_autoscaler.Base.{
  ◌+◌, ◌*◌, ◌≤◌, pos, ◌≤ℤ◌, true, ◌≡◌, refl, ◌≢◌, ◌⊎◌, [], ◌∷◌, none, some, ok, count_if, arith,
  ◌-◌, text_discrete, ◌+ℤ◌, ◌-ℤ◌, +ℤ_parts,
}
use kamatera_autoscaler.Base.Dict.{increment, lookup, insert}
use kamatera_autoscaler.Tests.{lab, config, at_time, empty_tracker, small, web, mirror, n1, n2, Lab}
use kamatera_autoscaler.Config.{pool_by_name}
use kamatera_autoscaler.Controller.Host.{World, cordons, evicts, deletes, terminates}
use kamatera_autoscaler.Controller.Options.{default_options}
use kamatera_autoscaler.Controller.Pending.{entries_for}
use kamatera_autoscaler.Controller.Match.{
  count_nodes_by_pool, pool_for_node, group_pending_by_pool, is_pending_for_resources,
}
use kamatera_autoscaler.Controller.Match.Laws.{is_in_pool}
use kamatera_autoscaler.Controller.ScaleUp.{scale_up}
use kamatera_autoscaler.Controller.ScaleUp.Bounds.{scale_up-within_max}
use kamatera_autoscaler.Controller.Drain.{
  drain_node, filter_evictable, is_mirror_pod, is_daemon_set_pod, drain_loop, drain_pass,
  evict_pass, evict_all, backoff,
}
use kamatera_autoscaler.Controller.Drain.Outcome.{IsEmptied, drain_node-IsEmptied}
use kamatera_autoscaler.Controller.Drain.Trace.{Adds, is_drain_change, drain_node-Drains}
use kamatera_autoscaler.Controller.Drain.Ends.{KeepsTime, drain_node_ends}
use kamatera_autoscaler.Controller.ScaleDown.{
  scale_down, Sweep, scale_down_nodes, scale_down_node, is_node_old_enough, is_node_idle, are_idle,
  remove_node, terminate_and_delete,
}
use kamatera_autoscaler.Controller.ScaleDown.Bounds.{scale_down-within_min}

scale_up-within_max_example :
    let s = (scale_up lab config (λ m. m) empty_tracker (at_time 0 [])).1 in
    (entries_for "small" s.creating.entries ≤ 0)
    ⊎ (pos (2 + entries_for "small" s.creating.entries) ≤ℤ pos 3)
unfolding count_nodes_by_pool entries_for pool_by_name text_discrete scale_up lookup
    group_pending_by_pool increment is_pending_for_resources insert
scale_up-within_max_example =
    scale_up-within_max lab config (λ m. m) empty_tracker (at_time 0 []) (at_time 0 []).outside
      (at_time 0 []).outside (web ∷ []) (n1 ∷ n2 ∷ []) "small" small refl refl refl

-- A drain of one pod and a mirror pod: it waits two seconds behind the eviction.
abbrev drained_world : World Lab
drained_world = record {
  outside = record { time = pos 3000000000; pods = mirror ∷ [] };
  trace =
      record { change = evicts web; succeeded = true }
      ∷ record { change = cordons "n1"; succeeded = true }
      ∷ [];
}

drain_run :
    drain_node lab 3 "n1" (pos 60000000000) (at_time 1000000000 (web ∷ mirror ∷ []))
    ≡ some (ok tt, drained_world)
unfolding drain_node drain_loop drain_pass evict_pass evict_all backoff filter_evictable
    is_mirror_pod is_daemon_set_pod ◌+ℤ◌ lookup text_discrete
drain_run = refl

drain_node-IsEmptied_example :
    ((lab.cluster.cordon "n1" (record { time = pos 1000000000; pods = web ∷ mirror ∷ [] })).0
      ≡ ok tt)
    × IsEmptied lab "n1" drained_world
drain_node-IsEmptied_example =
    drain_node-IsEmptied lab 3 "n1" (pos 60000000000) (at_time 1000000000 (web ∷ mirror ∷ []))
      drained_world drain_run

drain_node-Drains_example :
    Adds (is_drain_change "n1") (at_time 1000000000 (web ∷ mirror ∷ [])) drained_world
drain_node-Drains_example =
    drain_node-Drains lab "n1" 3 (pos 60000000000) (at_time 1000000000 (web ∷ mirror ∷ []))
      drained_world (ok tt) drain_run

abbrev clock : KeepsTime lab
clock = record {
  time = λ o. o.time;
  now_shows = λ o. refl;
  now_keeps = λ o. omega arith;
  list_keeps = λ n o. omega arith;
  evict_keeps = λ p o. omega arith;
  pause_waits = λ k o e. omega (arith, +ℤ_parts o.time (pos k));
}

drain_node_ends_example : drain_node lab 4 "n1" (pos (1000000000 * 5)) (at_time 0 (web ∷ [])) ≢ none
drain_node_ends_example = drain_node_ends lab clock 5 3 "n1" (at_time 0 (web ∷ [])) (omega arith)

-- Two idle nodes over a minimum of one: the first goes, the second stays.
abbrev swept : Sweep lab default_options
swept = record {
  counted_down = n1 ∷ [];
  by_pool = ("small", 1) ∷ [];
  world = record {
    outside = record { time = pos 600000000000; pods = mirror ∷ [] };
    trace =
        record { change = deletes "n1"; succeeded = true }
        ∷ record { change = terminates "7"; succeeded = true }
        ∷ record { change = cordons "n1"; succeeded = true }
        ∷ [];
  };
}

scale_down_run :
    scale_down lab default_options 2 config (at_time 600000000000 (mirror ∷ []))
    ≡ some (none, swept)
unfolding scale_down scale_down_nodes scale_down_node is_node_old_enough is_node_idle are_idle
    remove_node terminate_and_delete drain_node drain_loop drain_pass evict_pass filter_evictable
    is_mirror_pod is_daemon_set_pod count_nodes_by_pool pool_for_node pool_by_name insert lookup
    text_discrete ◌+ℤ◌ ◌-ℤ◌ increment
scale_down_run = refl

scale_down-within_min_example :
    (count_if (is_in_pool "small") (n1 ∷ []) ≡ 0)
    ⊎ ((count_if (is_in_pool "small") (n1 ∷ []) ≤ count_if (is_in_pool "small") (n1 ∷ n2 ∷ []))
        × (pos 1
            ≤ℤ pos (
                count_if (is_in_pool "small") (n1 ∷ n2 ∷ [])
                - count_if (is_in_pool "small") (n1 ∷ []))))
unfolding pool_by_name text_discrete
scale_down-within_min_example =
    scale_down-within_min lab default_options config 2 "small" small
      (at_time 600000000000 (mirror ∷ [])) (n1 ∷ n2 ∷ []) swept refl (omega arith) refl
      scale_down_run
