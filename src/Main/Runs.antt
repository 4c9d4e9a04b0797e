-- ===== src/Main/Runs.antt =====
-- What holds of a controller that `main` (cmd/autoscaler/main.go) starts.
use kamatera_autoscaler.Base.{
  ℕ, ◌+◌, ◌≤◌, false, String, All, All-imp, count_if, some, ok, err, ◌≡◌, ◌≢◌, ◌⊎◌, inl, inr, arith,
  Result-cases,
}
use kamatera_autoscaler.Config.{Config, Pool, Credentials, pool_by_name}
use kamatera_autoscaler.Config.Valid.{IsReady, pool_by_name-All}
use kamatera_autoscaler.Config.Load.{load, load_credentials, required_variables}
use kamatera_autoscaler.Config.Load.Laws.{Visits, IsLoaded, load-IsLoaded, load_credentials_cases}
use kamatera_autoscaler.Kube.RestConfig.{
  RestApi, kubeconfig_path, build_rest_config, new_in_cluster_or_kubeconfig,
}
use kamatera_autoscaler.Controller.CloudInit.{render_cloud_init}
use kamatera_autoscaler.Controller.ScaleUp.Create.{create_request, request_node}
use kamatera_autoscaler.Kamatera.Console.Laws.{has_client_id}
use kamatera_autoscaler.Kamatera.Service.{create_once}
use kamatera_autoscaler.Controller.Host.{World, is_creation}
use kamatera_autoscaler.Kamatera.Http.{State}
use kamatera_autoscaler.Main.{Machine, main, connect, config_path, Started, runs, host}

module _ {Rest Clientset : Type 0} (A : RestApi Rest Clientset) (getenv : String → String) where
  -- The configuration of the cluster that the program runs in comes first; the file is read only where
  -- there is none.
  pub record IsConnected (kube : Clientset) : Type 0 where
    pub rest : Rest
    pub made : A.new_for_config rest ≡ ok kube
    pub found :
        (A.in_cluster_config ≡ ok rest)
        ⊎ ((e : String) × (A.in_cluster_config ≡ err e)
            × (kubeconfig_path A getenv ≢ "")
            × (A.build_config_from_flags (kubeconfig_path A getenv) ≡ ok rest))

  new_in_cluster_or_kubeconfig-IsConnected :
      (kube : Clientset) → new_in_cluster_or_kubeconfig A getenv ≡ ok kube → IsConnected kube
  unfolding new_in_cluster_or_kubeconfig build_rest_config
  new_in_cluster_or_kubeconfig-IsConnected kube h = elim (Result-cases A.in_cluster_config) [
    | inl (cfg, e) ↦ record { rest = cfg; made = ground arith; found = inl e }
    | inr (x, e) ↦ elim (Result-cases (A.build_config_from_flags (kubeconfig_path A getenv))) [
      | inl (cfg, b) ↦ record {
        rest = cfg;
        made = ground arith;
        found = inr (x, e, ground arith, b);
      }
      | inr (y, b) ↦ ground arith
    ]
  ]

module _ (M : Machine) where
  open M use {labels, Template, Outside, getenv, files, labels.{Selector}}

  -- The configuration is a loaded one with the credentials put in, all of them given; the clients are
  -- connected.
  pub record IsStarted (w w1 : Outside) (s : Started M) : Type 0 where
    pub loaded : Config Selector Template
    pub is_loaded : IsLoaded labels files (config_path M) w w1 loaded
    pub given : All (λ k. getenv k ≢ "") required_variables
    pub config : s.config ≡ record loaded {
      creds = record {
        kamatera_client_id = getenv "KAMATERA_API_CLIENT_ID";
        kamatera_secret = getenv "KAMATERA_API_SECRET";
        join_token = getenv "AUTOSCALER_JOIN_TOKEN";
        ssh_pub_key = getenv "SSH_PUB_KEY";
      };
    }
    pub connected : IsConnected M.rest getenv s.kube

  connect_runs :
      (cfg : Config Selector Template) (s : Started M)
      → connect M cfg ≡ runs s
      → (creds : Credentials) × (load_credentials getenv M.visited ≡ ok creds)
        × (s.config ≡ record cfg { creds = creds })
        × (new_in_cluster_or_kubeconfig M.rest getenv ≡ ok s.kube)
  unfolding connect
  connect_runs cfg s h = elim (Result-cases (load_credentials getenv M.visited)) [
    | inr (k, e) ↦ ground arith
    | inl (creds, e) ↦ elim (Result-cases (new_in_cluster_or_kubeconfig M.rest getenv)) [
      | inr (x, k) ↦ ground arith
      | inl (kube, k) ↦ (creds, e, ground arith, ground arith)
    ]
  ]

  -- A controller is started only with a configuration that `Load` accepts, with all credentials given
  -- in the environment, and with a client for the cluster that the program runs in or, outside of one,
  -- for the kubeconfig file.
  pub main-IsStarted :
      (w w1 : Outside) (s : Started M)
      → Visits M.visited
      → main M w ≡ (runs s, w1)
      → (M.help ≡ false) × IsStarted w w1 s
  unfolding main
  main-IsStarted w w1 s v h = elim (Result-cases (load labels files (config_path M) w).0) [
    | inr (x, e) ↦ ground arith
    | inl (cfg, e) ↦
        let read : load labels files (config_path M) w ≡ (ok cfg, w1) = ground arith in
        let (creds, c, same, k) = connect_runs cfg s ground arith in
        elim (load_credentials_cases getenv M.visited v) [
          | inl (name, bad, listed, empty) ↦ ground arith
          | inr (all, good) ↦ (
            ground arith,
            record {
              loaded = cfg;
              is_loaded = load-IsLoaded labels files (config_path M) w w1 cfg read;
              given = all;
              config = ground arith;
              connected = new_in_cluster_or_kubeconfig-IsConnected M.rest getenv s.kube k;
            },
          )
        ]
  ]

  -- Every pool that a started controller finds is valid, its selector parsed.
  pub started_pool :
      (w w1 : Outside) (s : Started M) (name : String) (p : Pool Selector)
      → IsStarted w w1 s
      → pool_by_name s.config name ≡ some p
      → IsReady labels p
  unfolding pool_by_name
  started_pool w w1 s name p started found =
      pool_by_name-All s.config name p (IsReady labels)
        (rw (started.config) (All-imp _ (λ q g. g.0) started.is_loaded.ready)) found

  -- The request of a creation, through the client with its retries and its recovery, asks for one server
  -- at most, and sends at most as many requests with the client id in their headers, which all requests to
  -- cloudcli have, as it asks for servers.
  pub request_node_once :
      (s : Started M) (pool : Pool Selector) (node_name : String) (w : World (State Outside))
      → let (_, w') = request_node (host M s) s.config pool node_name w in
        (n : ℕ) × (n ≤ 1)
        × (count_if is_creation w'.trace ≡ n + count_if is_creation w.trace)
        × (count_if has_client_id w'.outside.sent ≤ n + count_if has_client_id w.outside.sent)
  unfolding request_node
  request_node_once s pool node_name w =
      elim (Result-cases (render_cloud_init (host M s) s.config pool s.config.creds.join_token)) [
        | inr (e, failed) ↦ (0, ground arith, ground arith, ground arith)
        | inl (text, e) ↦ (
          1,
          ground arith,
          ground arith,
          ground (
            arith,
            create_once M.net M.net_keeps_time M.codec M.waits s.config.creds
                (create_request (host M s) s.config pool node_name text) w.outside,
          ),
        )
      ]
