-- ===== src/Tests/Trails.antt =====
-- The theorems on the loop with its scale-up cycles taken apart, at a cluster with a pod that waits.
use kamatera_autoscaler.Base.{
  ℕ, ◌+◌, pos, ◌≤ℤ◌, ◌≤◌, arith, String, ◌==◌, subst, true, is_some, ◌-ℤ◌, if◌then◌else◌, [], ◌∷◌,
  some, ok, err, ◌≡◌, refl, ◌⊎◌, text_discrete,
}
use kamatera_autoscaler.Base.Dict.{get_int, lookup, increment, insert}
use kamatera_autoscaler.Base.Decimal.{decimal, digit, hex_byte}
use kamatera_autoscaler.Kamatera.Http.{now}
use kamatera_autoscaler.Tests.{config, small, web, Lab}
use kamatera_autoscaler.Tests.Program.{api, machine, begin}
use kamatera_autoscaler.Logging.{info, parse_level}
use kamatera_autoscaler.Tests.Startup.{visited-Visits}
use kamatera_autoscaler.Config.{validate, pool_by_name}
use kamatera_autoscaler.Config.Reserved.{
  reject_reserved_fields, walk_forbidden_keys, is_reserved_key,
}
use kamatera_autoscaler.Config.Load.{
  load, parse_config, load_template, collect_variables, load_credentials,
}
use kamatera_autoscaler.Kube.RestConfig.{new_in_cluster_or_kubeconfig}
use kamatera_autoscaler.Kube.{KubeApi}
use kamatera_autoscaler.Kube.{list_pending_pods, list_nodes}
use kamatera_autoscaler.Controller.Match.{
  is_pending_for_resources, group_pending_by_pool, group_from, pool_for_pod, first_match,
  count_from, count_nodes_by_pool,
}
use kamatera_autoscaler.Controller.ScaleUp.{start_node, generate_node_name, nodes_to_create}
use kamatera_autoscaler.Controller.Pending.{
  remove, add, entries_for, count, gc_locked, live_entries,
}
use kamatera_autoscaler.Controller.Options.{new_tracker}
use kamatera_autoscaler.Controller.Run.Cycles.{is_creating}
use kamatera_autoscaler.Controller.Run.Backed.{works}
use kamatera_autoscaler.Controller.Run.Trail.Tracked.{Trail-works}
use kamatera_autoscaler.Controller.Run.{Controller, new_controller, request_creation}
use kamatera_autoscaler.Controller.Run.Trail.{
  Phase, idle, starts, start_next, advance, Trail, begins, moves, scales_up, requests,
}
use kamatera_autoscaler.Controller.Run.Trail.Plans.{starts_keep_max, ahead}
use kamatera_autoscaler.Controller.Run.Trail.Ends.{drive, drive-idle}
use kamatera_autoscaler.Controller.Run.Trail.Requests.{started_as, named, Trail-asked}
use kamatera_autoscaler.Controller.ScaleDown.Creations.{creations_of}
use kamatera_autoscaler.Main.{Machine, Started, main, runs, host, zero_options}
use kamatera_autoscaler.Main.Limits.{main_keeps_max}

-- The pod `web` is pending.
abbrev busy_api : KubeApi Lab String
busy_api = record api {
  list_pods =
      λ selector o. (ok (if selector == "status.phase=Pending" then web ∷ [] else o.pods), o);
}

abbrev busy_machine : Machine
busy_machine = record machine {
  rest = record {
    in_cluster_config = ok "inside";
    user_home_dir = "";
    join = λ parts. "";
    build_config_from_flags = λ path. err "no file";
    new_for_config = λ cfg. ok busy_api;
  };
}

abbrev busy : Started busy_machine
busy = record { level = info; config = config; kube = busy_api }

abbrev Moment : Type 0
Moment = Phase String × Controller (host busy_machine busy) zero_options config

abbrev next : Moment → Moment
next (p, s) = advance (host busy_machine busy) zero_options config (λ m. m) p s

abbrev listed : Moment
listed = next (idle, new_controller (host busy_machine busy) zero_options config begin)

abbrev counted : Moment
counted = next listed

abbrev starting : Moment
starting = next counted

starting_reached : Trail (host busy_machine busy) zero_options config begin starting.0 starting.1
starting_reached =
    moves (moves (begins (λ m. m) listed.0 listed.1 refl) (scales_up (λ m. m) refl))
      (scales_up (λ m. m) refl)

starting_one : starting.0 ≡ starts (("small", 2) ∷ []) [] "small" small 1
unfolding advance list_pending_pods list_nodes group_pending_by_pool group_from count_nodes_by_pool
    pool_for_pod first_match increment text_discrete pool_by_name lookup new_controller count
    gc_locked nodes_to_create is_pending_for_resources insert ◌-ℤ◌ entries_for live_entries
    new_tracker
starting_one = refl

abbrev plan : Phase String
plan = starts (("small", 2) ∷ []) [] "small" small 1

plan_reached : Trail (host busy_machine busy) zero_options config begin plan starting.1
plan_reached =
    subst (λ p. Trail (host busy_machine busy) zero_options config begin p starting.1) starting_one
      starting_reached

starts_keep_max_example :
    (pool_by_name config "small" ≡ some small)
    × ((◌≡◌ {A = ℕ} 1 0)
        ⊎ (pos (
              get_int "small" (("small", 2) ∷ [])
              + entries_for "small" starting.1.creating.entries
              + 1)
            ≤ℤ pos 3))
starts_keep_max_example =
    starts_keep_max (host busy_machine busy) zero_options config begin starting.1
      (("small", 2) ∷ []) [] "small" small 1 plan_reached

busy_run : main busy_machine begin.outside.outside ≡ (runs busy, begin.outside.outside)
unfolding main load parse_config reject_reserved_fields walk_forbidden_keys is_reserved_key validate
    text_discrete load_template load_credentials collect_variables new_in_cluster_or_kubeconfig
    parse_level lookup insert
busy_run = refl

small_found : pool_by_name config "small" ≡ some small
unfolding pool_by_name text_discrete
small_found = refl

main_keeps_max_example :
    pos (
      entries_for "small" starting.1.creating.entries
      + ahead (host busy_machine busy) zero_options config "small" plan)
    ≤ℤ pos 3
main_keeps_max_example =
    main_keeps_max busy_machine begin.outside.outside begin.outside.outside busy begin plan
      starting.1 "small" small visited-Visits busy_run plan_reached small_found

abbrev started_one : Moment
started_one = next (plan, starting.1)

held_run : is_some (lookup "small-600-010203" started_one.1.creating.entries) ≡ true
unfolding lookup advance start_next start_node add live_entries list_pending_pods list_nodes
    group_pending_by_pool text_discrete is_pending_for_resources pool_for_pod increment insert
    pool_by_name count new_controller decimal digit hex_byte ◌-ℤ◌ count_from count_nodes_by_pool
    first_match group_from new_tracker entries_for gc_locked generate_node_name nodes_to_create now
held_run = refl

started_one_reached :
    Trail (host busy_machine busy) zero_options config begin started_one.0 started_one.1
started_one_reached = moves plan_reached (scales_up (λ m. m) refl)

Trail-works_example :
    is_creating "small-600-010203"
      (works (host busy_machine busy) zero_options config started_one.1)
    ≡ true
Trail-works_example =
    Trail-works (host busy_machine busy) zero_options config begin started_one.0 started_one.1
      "small-600-010203" started_one_reached held_run

-- The creation sends its request.
abbrev made : Controller (host busy_machine busy) zero_options config
made =
    request_creation (host busy_machine busy) zero_options config small "small-600-010203" []
      started_one.1

one_creation : started_one.1.creations ≡ (small, "small-600-010203") ∷ []
unfolding lookup advance start_next start_node add live_entries list_pending_pods list_nodes
    group_pending_by_pool text_discrete is_pending_for_resources pool_for_pod increment insert
    pool_by_name count new_controller decimal digit hex_byte ◌-ℤ◌ count_from count_nodes_by_pool
    first_match group_from new_tracker entries_for gc_locked generate_node_name nodes_to_create now
one_creation = refl

made_reached : Trail (host busy_machine busy) zero_options config begin started_one.0 made
made_reached =
    moves started_one_reached (requests [] [] small "small-600-010203" refl one_creation refl)

Trail-asked_example :
    creations_of "small-600-010203" made.world
      + named (host busy_machine busy) zero_options config "small-600-010203" made.creations
    ≤ creations_of "small-600-010203" begin
      + started_as (host busy_machine busy) zero_options config "small-600-010203" made_reached
Trail-asked_example =
    Trail-asked (host busy_machine busy) zero_options config "small-600-010203" begin started_one.0
      made made_reached

-- Somebody removes the node that is started in between.
abbrev meddle :
    Controller (host busy_machine busy) zero_options config
    → Controller (host busy_machine busy) zero_options config
meddle s = record s { creating = remove "small-600-010203" s.creating }

drive-idle_example :
    (drive
      (host busy_machine busy)
      zero_options
      config
      (λ m. m)
      (meddle ∷ meddle ∷ meddle ∷ [])
      plan
      starting.1).0
    ≡ idle
drive-idle_example =
    drive-idle (host busy_machine busy) zero_options config (λ m. m) (meddle ∷ meddle ∷ meddle ∷ [])
      plan starting.1 refl (omega arith)
