-- ===== src/Main.antt =====
-- `main` of cmd/autoscaler/main.go up to the loop of the controller, which it hands the loaded
-- configuration and the clients. What the program meets outside is one record, `Machine`.
pub mod Runs
pub mod Limits
use kamatera_autoscaler.Base.{
  ℕ, pos, Bool, false, if◌then◌else◌, String, ◌==◌, List, Option, none, some, Result, ok, err,
  map_err,
}
use kamatera_autoscaler.Config.{LabelsApi, Config}
use kamatera_autoscaler.Config.Load.{Files, LoadError, load, load_credentials}
use kamatera_autoscaler.Controller.Host.{Host, CloudInitVars}
use kamatera_autoscaler.Controller.Options.{Options}
use kamatera_autoscaler.Kamatera.Errors.{Error, context_error, is_server_not_found, as_recovered}
use kamatera_autoscaler.Kamatera.Console.{Codec}
use kamatera_autoscaler.Kamatera.Create.Ends.{KeepsTime}
use kamatera_autoscaler.Kamatera.Http.{Network, State, Call, now, wait}
use kamatera_autoscaler.Kamatera.Service.{http_client}
use kamatera_autoscaler.Kamatera.Watcher.{Wait}
use kamatera_autoscaler.Kamatera.Types.{CloudClient, Server}
use kamatera_autoscaler.Kube.{Action, Cluster, KubeApi, Wrapped, client}
use kamatera_autoscaler.Kube.RestConfig.{RestApi, RestError, new_in_cluster_or_kubeconfig}
use kamatera_autoscaler.Logging.{Level, parse_level}

-- The arguments of the process, and what stands behind its packages. `waits` is what the watcher answers
-- to a wait for a command. `visited` is the order in which `LoadCredentials` visits its map.
pub record Machine : Type 1 where
  pub labels : LabelsApi
  pub Template : Type 0
  pub execute : Template → CloudInitVars → Result String String
  pub Outside : Type 0
  pub KubeError : Type 0
  pub Rest : Type 0
  pub help : Bool
  pub getenv : String → String
  pub visited : List String
  pub files : Files labels.Selector Template Outside
  pub rest : RestApi Rest (KubeApi Outside KubeError)
  pub net : Network Outside
  pub net_keeps_time : KeepsTime net
  pub codec : Codec
  pub waits : Wait → Call Outside Server
  pub random_bytes : Outside → (ℕ × ℕ × ℕ) × Outside

-- An error as the controller meets it: of either client, or of the context.
pub data Failure (E : Type 0) : Type 0 where
  of_kube : Wrapped E → Failure E
  of_cloud : Error → Failure E

abbrev pub zero_options : Options
zero_options = record {
  scale_up_every = pos 0;
  scale_down_every = pos 0;
  node_ready_timeout = pos 0;
  idle_threshold = pos 0;
  drain_timeout = pos 0;
}

module _ (M : Machine) where
  open M use {labels, Template, Outside, KubeError, getenv, labels.{Selector}}

  -- What the controller is made of.
  pub record Started : Type 0 where
    pub level : Level
    pub config : Config Selector Template
    pub kube : KubeApi Outside KubeError

  pub data Exit : Type 0 where
    printed_usage : Exit
    config_load_failed : String → LoadError → Exit
    credentials_missing : String → Exit
    kubernetes_client_failed : RestError → Exit
    runs : Started → Exit

  unfoldable pub config_path : String
  config_path =
      let path = getenv "AUTOSCALER_CONFIG" in
      if path == "" then "/etc/autoscaler/pools.yaml" else path

  -- The part behind the configuration.
  unfoldable pub connect : Config Selector Template → Exit
  connect cfg = elim (load_credentials getenv M.visited) [
    | err k ↦ credentials_missing k
    | ok creds ↦ elim (new_in_cluster_or_kubeconfig M.rest getenv) [
      | err e ↦ kubernetes_client_failed e
      | ok kube ↦ runs (record {
        level = parse_level (getenv "LOG_LEVEL");
        config = record cfg { creds = creds };
        kube = kube;
      })
    ]
  ]

  unfoldable pub main : Outside → Exit × Outside
  unfolding config_path connect
  main w =
      if M.help
      then (printed_usage, w)
      else let (r, w1) = load labels M.files config_path w in
        (elim r [ err e ↦ config_load_failed config_path e | ok cfg ↦ connect cfg ], w1)

  -- The status that the process ends with. `Run` gives no error.
  unfoldable pub exit_code : Exit → ℕ
  exit_code printed_usage = 0
  exit_code (config_load_failed path e) = 2
  exit_code (credentials_missing k) = 2
  exit_code (kubernetes_client_failed e) = 2
  exit_code (runs s) = 0

  -- A call to Kubernetes, which the state of the other client does not take part in.
  abbrev pub kube_action :
      {A : Type 0}
      → Action Outside (Wrapped KubeError) A
      → Action (State Outside) (Failure KubeError) A
  kube_action call s = let (r, o) = call s.outside in (map_err of_kube r, record s { outside = o })

  abbrev pub cloud_action :
      {A : Type 0} → Call Outside A → Action (State Outside) (Failure KubeError) A
  cloud_action call s = let (r, s1) = call s in (map_err of_cloud r, s1)

  abbrev pub cluster_of : KubeApi Outside KubeError → Cluster (State Outside) (Failure KubeError)
  cluster_of K =
      let c = client K in
      record {
        list_pending_pods = kube_action c.list_pending_pods;
        list_pods_on_node = λ n. kube_action (c.list_pods_on_node n);
        list_nodes = kube_action c.list_nodes;
        cordon = λ n. kube_action (c.cordon n);
        evict = λ p. kube_action (c.evict p);
        delete = λ n. kube_action (c.delete n);
        is_too_many_requests =
            λ e. elim e [ of_kube x ↦ c.is_too_many_requests x | of_cloud x ↦ false ];
        is_not_found = λ e. elim e [ of_kube x ↦ c.is_not_found x | of_cloud x ↦ false ];
      }

  abbrev pub cloud_of :
      CloudClient (State Outside) Error → CloudClient (State Outside) (Failure KubeError)
  cloud_of c = record {
    create_server = λ req. cloud_action (c.create_server req);
    wait_provision = λ id name timeout. cloud_action (c.wait_provision id name timeout);
    wait_terminate = λ id timeout. cloud_action (c.wait_terminate id timeout);
    find_server_by_name = λ name. cloud_action (c.find_server_by_name name);
    terminate_server = λ id. cloud_action (c.terminate_server id);
  }

  abbrev pub not_found_of : Failure KubeError → Bool
  not_found_of (of_kube e) = false
  not_found_of (of_cloud e) = is_server_not_found e

  abbrev pub recovered_of : Failure KubeError → Option Server
  recovered_of (of_kube e) = none
  recovered_of (of_cloud e) = as_recovered e

  -- What the controller works with: `controller.New` at the two clients.
  abbrev pub host : Started → Host
  host s = record {
    labels = labels;
    Template = Template;
    execute = M.execute;
    Outside = State Outside;
    Failure = Failure KubeError;
    cluster = cluster_of s.kube;
    cloud = cloud_of (http_client M.net M.net_keeps_time M.codec M.waits s.config.creds);
    is_server_not_found = not_found_of;
    as_recovered = recovered_of;
    now = now M.net;
    random_bytes = λ s. let (b, o) = M.random_bytes s.outside in (b, record s { outside = o });
    pause = λ d s.
        let (r, s1) = wait M.net d s in
        (elim r [ none ↦ none | some e ↦ some (of_cloud (context_error e)) ], s1);
  }
