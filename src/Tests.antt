-- ===== src/Tests.antt =====
-- Concrete data for the runs: a small cluster with a clock, and a server behind a network.
pub mod Cluster
pub mod Cycles
pub mod Cloud
pub mod Waits
pub mod Pieces
pub mod Startup
pub mod Clients
pub mod Program
pub mod Trails
pub mod Queries
use mathlib.Core.Option.{get_or}
use kamatera_autoscaler.Base.{
  ℕ, ℤ, pos, ◌+ℤ◌, false, String, ◌==◌, List, [], ◌∷◌, keep_if, none, some, ok, err, if◌then◌else◌,
  not, is_some,
}
use kamatera_autoscaler.Base.Dict.{lookup}
use kamatera_autoscaler.Config.{LabelsApi, Pool, Config, Credentials}
use kamatera_autoscaler.Kube.{Pod, Node}
use kamatera_autoscaler.Kamatera.Types.{Server}
use kamatera_autoscaler.Kamatera.Json.{text, array, cons, nil}
use kamatera_autoscaler.Kamatera.Http.{Network, State, Settings, default_settings}
use kamatera_autoscaler.Kamatera.Console.{Codec}
use kamatera_autoscaler.Controller.Host.{Host, World}
use kamatera_autoscaler.Controller.Pending.{PendingTracker}

-- A selector is the value that it asks of the label `pool`.
abbrev pub labels : LabelsApi
labels = record {
  Selector = String;
  parse = λ s. if s == "!" then err "bad" else ok s;
  matches = λ s m. elim (lookup "pool" m) [ none ↦ false | some v ↦ v == s ];
}

abbrev pub creds : Credentials
creds = record {
  kamatera_client_id = "id";
  kamatera_secret = "secret";
  join_token = "join";
  ssh_pub_key = "key";
}

abbrev pub small : Pool String
small = record {
  name = "small";
  cpu_type = "B";
  cpu_cores = pos 2;
  ram_mb = pos 2048;
  disk_gb = pos 20;
  image = "ubuntu";
  min_nodes = pos 1;
  max_nodes = pos 3;
  node_labels = "";
  node_taints = "";
  pod_selector = "small";
  parsed_selector = some "small";
}

abbrev pub config : Config String String
config = record {
  datacenter = "EU";
  vlan_name = "";
  server_ip = "10.0.0.1";
  cloud_init_template_path = "init.tpl";
  pools = small ∷ [];
  cloud_init = some "#cloud-config";
  creds = creds;
}

abbrev pub web : Pod
web = record {
  namespace = "default";
  name = "web";
  phase = "Pending";
  conditions =
      record {
        kind = "PodScheduled";
        status = "False";
        reason = "Unschedulable";
        message = "Insufficient cpu";
      }
      ∷ [];
  node_selector = ("pool", "small") ∷ [];
  owner_references = [];
  annotations = [];
  deletion_timestamp = none;
}

abbrev pub mirror : Pod
mirror = record web { name = "mirror"; annotations = ("kubernetes.io/config.mirror", "x") ∷ [] }

abbrev pub small_node : String → Node
small_node name = record {
  name = name;
  labels = ("pool", "small") ∷ [];
  creation_timestamp = some (pos 0);
}

abbrev pub n1 : Node
n1 = small_node "n1"

abbrev pub n2 : Node
n2 = small_node "n2"

abbrev pub vm : Server
vm = record { id = "7"; name = "n1"; power = "on"; datacenter = "EU" }

-- The outside of the laboratory: the clock, and the pods on its nodes.
pub record Lab : Type 0 where
  pub time : ℤ
  pub pods : List Pod

-- Every call succeeds but the lookups of servers other than `n1`. An eviction removes the pod.
abbrev pub lab : Host
lab = record {
  labels = labels;
  Template = String;
  execute = λ t vars. ok t;
  Outside = Lab;
  Failure = String;
  cluster = record {
    list_pending_pods = λ o. (ok (web ∷ []), o);
    list_pods_on_node = λ n o. (ok o.pods, o);
    list_nodes = λ o. (ok (n1 ∷ n2 ∷ []), o);
    cordon = λ n o. (ok tt, o);
    evict = λ p o. (ok tt, record o { pods = keep_if (λ q. not (q.name == p.name)) o.pods });
    delete = λ n o. (ok tt, o);
    is_too_many_requests = λ e. false;
    is_not_found = λ e. false;
  };
  cloud = record {
    create_server = λ req o. (ok "9", o);
    wait_provision = λ id name d o. (ok vm, o);
    wait_terminate = λ id d o. (ok tt, o);
    find_server_by_name = λ name o. (if name == "n1" then ok vm else err "absent", o);
    terminate_server = λ id o. (ok "8", o);
  };
  is_server_not_found = λ e. e == "absent";
  as_recovered = λ e. none;
  now = λ o. (o.time, o);
  random_bytes = λ o. ((1, 2, 3), o);
  pause = λ d o. (none, record o { time = o.time +ℤ d });
}

abbrev pub at_time : ℕ → List Pod → World Lab
at_time t pods = record { outside = record { time = pos t; pods = pods }; trace = [] }

abbrev pub empty_tracker : PendingTracker
empty_tracker = record { ttl = pos 300000000000; entries = [] }

-- A network that answers every request of the console with 200, and loses those to cloudcli. Its
-- outside is the clock.
abbrev pub lossy : Network ℤ
lossy = record {
  build = λ req. none;
  send = λ req t. (
    if is_some (lookup "AuthSecret" req.headers)
        then err "connection reset"
        else ok (record { code = 200; body = "[]" }),
    t,
  );
  wait = λ d t. (none, t +ℤ d);
  now = λ t. (t, t);
  ended = λ t. none;
}

-- A network that answers every request with a status.
abbrev pub answering : ℕ → Network ℤ
answering status = record {
  build = λ req. none;
  send = λ req t. (ok (record { code = status; body = "x" }), t);
  wait = λ d t. (none, t +ℤ d);
  now = λ t. (t, t);
  ended = λ t. none;
}

-- A network whose console takes every token but `old`.
abbrev pub forgetful : Network ℤ
forgetful = record {
  build = λ req. none;
  send = λ req t. (
    ok (record {
      code = if get_or (lookup "Authorization" req.headers) "" == "Bearer old" then 401 else 200;
      body = "[]";
    }),
    t,
  );
  wait = λ d t. (none, t +ℤ d);
  now = λ t. (t, t);
  ended = λ t. none;
}

abbrev pub codec : Codec
codec = record {
  write_auth = λ c. "auth";
  write_create = λ r. "create";
  write_terminate = λ id. "terminate";
  read_json = λ s. some (array (cons (text "5") nil));
  read_auth = λ s. ok (record { authentication = "token"; expires = pos 1000 });
  read_queue = λ s. ok [];
  read_servers = λ s. ok (vm ∷ []);
}

abbrev pub settings : Settings
settings = default_settings creds

abbrev pub fresh_state : State ℤ
fresh_state = record { token = ""; expires_at = pos 0; outside = pos 0; sent = [] }
