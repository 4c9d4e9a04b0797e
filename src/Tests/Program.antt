-- ===== src/Tests/Program.antt =====
-- The theorems on cmd/autoscaler at a concrete machine.
use kamatera_autoscaler.Base.{
  +ℤ_parts, ◌+◌, pos, ◌+ℤ◌, ◌-◌, ◌≤◌, ◌≤ℤ◌, false, if◌then◌else◌, String, ◌==◌, [], ◌∷◌, none, some,
  ok, err, ◌≡◌, refl, ◌⊎◌, count_if, text_discrete, arith,
}
use kamatera_autoscaler.Tests.{codec, labels, config, small, Lab, vm, n1, n2, mirror}
use kamatera_autoscaler.Config.{validate, pool_by_name}
use kamatera_autoscaler.Config.Reserved.{
  reject_reserved_fields, walk_forbidden_keys, is_reserved_key,
}
use kamatera_autoscaler.Config.Load.{
  load, parse_config, load_template, collect_variables, load_credentials,
}
use kamatera_autoscaler.Kube.{KubeApi, evict, list_nodes, list_pods_on_node}
use kamatera_autoscaler.Kube.RestConfig.{new_in_cluster_or_kubeconfig}
use kamatera_autoscaler.Base.Dict.{lookup, insert}
use kamatera_autoscaler.Logging.{info, parse_level}
use kamatera_autoscaler.Controller.Host.{is_creation, World}
use kamatera_autoscaler.Controller.Options.{resolve}
use kamatera_autoscaler.Controller.Match.Laws.{is_in_pool}
use kamatera_autoscaler.Controller.Run.{
  Controller, new_controller, run_scale_up, run_scale_down, first,
}
use kamatera_autoscaler.Controller.Run.Trail.{idle, Trail}
use kamatera_autoscaler.Controller.Run.Trail.Whole.{Run-Trail}
use kamatera_autoscaler.Main.{Machine, Started, main, runs, host, zero_options}
use kamatera_autoscaler.Kamatera.Http.{Network, State, now, wait}
use kamatera_autoscaler.Kamatera.Console.Laws.{has_client_id}
use kamatera_autoscaler.Kamatera.Create.Ends
use kamatera_autoscaler.Controller.Drain.Ends.{KeepsTime}
use kamatera_autoscaler.Controller.ScaleDown.Losses.{lost_nodes, failed_deletions}
use kamatera_autoscaler.Main.Limits.{main_keeps_min}
use kamatera_autoscaler.Controller.ScaleUp.Create.{request_node}
use kamatera_autoscaler.Main.Runs.{request_node_once, main-IsStarted, IsStarted}
use kamatera_autoscaler.Base.{ℕ}
use kamatera_autoscaler.Tests.Startup.{files, environment, visited, visited-Visits}

-- A cluster with two idle nodes and nothing pending.
abbrev pub api : KubeApi Lab String
api = record {
  list_pods = λ selector o. (ok (if selector == "status.phase=Pending" then [] else o.pods), o);
  list_all_nodes = λ o. (ok (n1 ∷ n2 ∷ []), o);
  patch_node = λ name patch o. (ok tt, o);
  evict_v1 = λ namespace name o. (ok tt, o);
  delete_node = λ name o. (ok tt, o);
  too_many_requests = λ e. false;
  not_found = λ e. false;
}

-- A network that answers every request with 200.
abbrev net : Network Lab
net = record {
  build = λ req. none;
  send = λ req o. (ok (record { code = 200; body = "[]" }), o);
  wait = λ d o. (none, record o { time = o.time +ℤ d });
  now = λ o. (o.time, o);
  ended = λ o. none;
}

abbrev net_keeps_time : Ends.KeepsTime net
net_keeps_time = record {
  time = λ o. o.time;
  now_shows = λ o. refl;
  now_keeps = λ o. omega arith;
  send_keeps = λ r o. omega arith;
  wait_waits = λ k o e. omega (arith, +ℤ_parts o.time (pos k));
}

abbrev pub machine : Machine
machine = record {
  labels = labels;
  Template = String;
  execute = λ t vars. ok t;
  Outside = Lab;
  KubeError = String;
  Rest = String;
  help = false;
  getenv = environment;
  visited = visited;
  files = files;
  rest = record {
    in_cluster_config = ok "inside";
    user_home_dir = "";
    join = λ parts. "";
    build_config_from_flags = λ path. err "no file";
    new_for_config = λ cfg. ok api;
  };
  net = net;
  net_keeps_time = net_keeps_time;
  codec = codec;
  waits = λ wait s. (ok vm, s);
  random_bytes = λ o. ((1, 2, 3), o);
}

abbrev pub started : Started machine
started = record { level = info; config = config; kube = api }

abbrev pub begin : World (State Lab)
begin = record {
  outside = record {
    token = "";
    expires_at = pos 0;
    outside = record { time = pos 600000000000; pods = mirror ∷ [] };
    sent = [];
  };
  trace = [];
}

main_run : main machine begin.outside.outside ≡ (runs started, begin.outside.outside)
unfolding main load parse_config reject_reserved_fields walk_forbidden_keys is_reserved_key validate
    text_discrete load_template load_credentials collect_variables new_in_cluster_or_kubeconfig
    parse_level lookup insert
main_run = refl

main-IsStarted_example :
    (machine.help ≡ false) × IsStarted machine begin.outside.outside begin.outside.outside started
main-IsStarted_example =
    main-IsStarted machine begin.outside.outside begin.outside.outside started visited-Visits
      main_run

abbrev calm : Controller (host machine started) zero_options config
calm =
    run_scale_up (host machine started) zero_options config (λ m. m)
      (new_controller (host machine started) zero_options config begin)

calm_reached : Trail (host machine started) zero_options config begin idle calm
calm_reached =
    Run-Trail (host machine started) zero_options config begin calm (first (λ m. m) calm refl)

started_clock : KeepsTime (host machine started)
unfolding list_pods_on_node evict now wait
started_clock = record {
  time = λ s. s.outside.time;
  now_shows = λ o. refl;
  now_keeps = λ o. omega arith;
  list_keeps = λ n o. omega arith;
  evict_keeps = λ p o. omega arith;
  pause_waits = λ k o e. omega (arith, +ℤ_parts o.outside.time (pos k));
}

main_keeps_min_example :
    (v : World (State Lab)) × (run_scale_down (host machine started) zero_options config 152 calm
      ≡ some (record calm { world = v; scale_down_in_progress = false }))
    × (let lost =
          count_if
            (is_in_pool "small")
            (lost_nodes (host machine started) (resolve zero_options) 152 config calm.world) in
        let failed = failed_deletions v - failed_deletions calm.world in
        (lost ≤ failed) ⊎ ((lost - failed ≤ 2) × (pos 1 ≤ℤ pos (2 - (lost - failed)))))
unfolding pool_by_name text_discrete list_nodes lookup
main_keeps_min_example =
    main_keeps_min machine begin.outside.outside begin.outside.outside started begin calm "small"
      small (n1 ∷ n2 ∷ []) started_clock visited-Visits main_run calm_reached refl refl

request_node_once_example :
    let (_, w') = request_node (host machine started) config small "small-1" begin in
    (n : ℕ) × (n ≤ 1)
    × (count_if is_creation w'.trace ≡ n + count_if is_creation begin.trace)
    × (count_if has_client_id w'.outside.sent ≤ n + count_if has_client_id begin.outside.sent)
request_node_once_example = request_node_once machine started small "small-1" begin
