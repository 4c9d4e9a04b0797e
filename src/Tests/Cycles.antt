-- ===== src/Tests/Cycles.antt =====
-- The theorems on single pools and nodes of internal/controller at concrete data.
use kamatera_autoscaler.Base.{
  ℕ, ◌+◌, length, true, false, Bool, ◌≡◌, refl, ◌⊎◌, [], ◌∷◌, some, ok, err, String, text_discrete,
  ◌+ℤ◌, ◌-ℤ◌,
}
use kamatera_autoscaler.Base.Dict.{lookup, Dict}
use kamatera_autoscaler.Tests.{lab, config, at_time, empty_tracker, small, mirror, n1, Lab}
use kamatera_autoscaler.Controller.ScaleUp.{Cycle, scale_up_pool}
use kamatera_autoscaler.Controller.ScaleUp.Starts.{refusals, scale_up_pool-starts}
use kamatera_autoscaler.Config.{pool_by_name}
use kamatera_autoscaler.Kamatera.Types.{Server}
use kamatera_autoscaler.Controller.Host.{World, Event, cordons, deletes, terminates, succeeds}
use kamatera_autoscaler.Controller.Options.{default_options}
use kamatera_autoscaler.Controller.Pending.{add, count, entries_for, live_entries}
use kamatera_autoscaler.Controller.Match.{pool_for_node}
use kamatera_autoscaler.Controller.Drain.{
  drain_node, filter_evictable, is_mirror_pod, is_daemon_set_pod, drain_loop, drain_pass,
  evict_pass,
}
use kamatera_autoscaler.Controller.Drain.Outcome.{IsEmptied}
use kamatera_autoscaler.Controller.Drain.Trace.{Adds, is_drain_change}
use kamatera_autoscaler.Controller.ScaleDown.{
  scale_down_node, is_node_old_enough, is_node_idle, are_idle, remove_node, terminate_and_delete,
}
use kamatera_autoscaler.Controller.ScaleDown.Guards.{
  MayGo, scale_down_node_order, terminate_and_delete_trace,
}

abbrev counts : Dict ℕ
counts = ("small", 2) ∷ []

abbrev start : World Lab
start = at_time 600000000000 (mirror ∷ [])

abbrev removed : World Lab
removed = record {
  outside = start.outside;
  trace =
      record { change = deletes "n1"; succeeded = true }
      ∷ record { change = terminates "7"; succeeded = true }
      ∷ record { change = cordons "n1"; succeeded = true }
      ∷ [];
}

scale_down_node_run :
    scale_down_node lab default_options 2 config counts n1 start ≡ some (true, removed)
unfolding scale_down_node pool_for_node text_discrete lookup pool_by_name is_node_old_enough ◌-ℤ◌
    is_node_idle are_idle is_daemon_set_pod is_mirror_pod remove_node drain_node drain_loop
    drain_pass ◌+ℤ◌ evict_pass filter_evictable terminate_and_delete
scale_down_node_run = refl

scale_down_node_order_example :
    ((true ≡ false) × (removed.trace ≡ []))
    ⊎ (MayGo lab default_options config counts n1 start
        × (((true ≡ false) × Adds (is_drain_change "n1") start removed)
            ⊎ ((v : World Lab) × Adds (is_drain_change "n1") start v
                × IsEmptied lab "n1" v
                × (removed ≡ (terminate_and_delete lab default_options "n1" v).1)
                × (true ≡ succeeds (terminate_and_delete lab default_options "n1" v).0))))
scale_down_node_order_example =
    scale_down_node_order lab default_options 2 config counts n1 start removed true
      scale_down_node_run

terminate_and_delete_trace_example :
    let (r, w') = terminate_and_delete lab default_options "n1" start in
    let deletion : Bool → Event = λ done. record { change = deletes "n1"; succeeded = done } in
    let found = (lab.cloud.find_server_by_name "n1" start.outside).0 in
    ((e : String) × (found ≡ err e)
      × (lab.is_server_not_found e ≡ false)
      × (r ≡ err e)
      × (w'.trace ≡ []))
    ⊎ (((e : String) × (found ≡ err e)
          × (lab.is_server_not_found e ≡ true)
          × (w'.trace ≡ deletion (succeeds r) ∷ []))
        ⊎ ((srv : Server) × (found ≡ ok srv)
            × (((succeeds r ≡ false)
                  × (w'.trace ≡ record { change = terminates srv.id; succeeded = false } ∷ []))
                ⊎ (w'.trace
                    ≡ deletion (succeeds r)
                      ∷ record { change = terminates srv.id; succeeded = true }
                      ∷ []))))
terminate_and_delete_trace_example = terminate_and_delete_trace lab default_options "n1" start

-- Five pods wait, one node is listed, and three nodes are allowed.
abbrev empty_cycle : Cycle lab
empty_cycle = record { creating = empty_tracker; started = []; world = start }

scale_up_pool-starts_example :
    length (scale_up_pool lab config (("small", 1) ∷ []) ("small", 5) empty_cycle).started
      + refusals lab 2 "small" small empty_cycle
    ≡ 2 + 0
unfolding pool_by_name text_discrete add count lookup entries_for live_entries
scale_up_pool-starts_example =
    scale_up_pool-starts lab config (("small", 1) ∷ []) "small" 5 3 small empty_cycle refl refl
