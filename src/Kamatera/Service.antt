-- ===== src/Kamatera/Service.antt =====
-- `httpClient` of internal/kamatera/client.go as the interface `Client`, at the settings that `NewClient`
-- makes without options. With a clock that keeps time every call ends. A wait for a command is what the
-- watcher (Kamatera.Watcher) answers to it.
use kamatera_autoscaler.Base.{
  ℤ, ◌+ℤ◌, [], Option, none, some, ok, err, ◌≢◌, ◌≡◌, ◌≤◌, ◌+◌, count_if, refl, arith, String,
}
use kamatera_autoscaler.Config.{Credentials}
use kamatera_autoscaler.Kamatera.ClientOptions.{new_client}
use kamatera_autoscaler.Kamatera.Console.{Codec}
use kamatera_autoscaler.Kamatera.Console.Laws.{has_client_id}
use kamatera_autoscaler.Kamatera.Create.{create_server, find_server_by_name, terminate_server}
use kamatera_autoscaler.Kamatera.Create.Ends.{KeepsTime, create_server_ends}
use kamatera_autoscaler.Kamatera.Create.Once.{create_server_once}
use kamatera_autoscaler.Kamatera.Errors.{Error}
use kamatera_autoscaler.Kamatera.Http.{Network, Settings, State, Call, now}
use kamatera_autoscaler.Kamatera.Types.{CloudClient, CreateServerRequest, Server}
use kamatera_autoscaler.Kamatera.Watcher.{Wait}

-- The result of a computation that does not run out of fuel.
abbrev pub result {ℓ} : {A : Type ℓ} → (x : Option A) → x ≢ none → A
result (some a) some_fuel = a
result none some_fuel = absurd (some_fuel refl)

module _ {O : Type 0} (N : Network O) (C : KeepsTime N) (J : Codec) (waits : Wait → Call O Server)
    (creds : Credentials) where
  abbrev pub settings : Settings
  settings = new_client creds []

  -- Ten minutes of recovery at a pass every fifteen seconds.
  pub fuel_is_enough :
      (req : CreateServerRequest) (s : State O) → create_server N J settings 42 req s ≢ none
  unfolding new_client
  fuel_is_enough req s =
      create_server_ends N C J settings 15000000000 41 600000000000 req s refl (omega arith) refl
        (omega arith)

  unfoldable pub create : CreateServerRequest → Call O String
  create req s = result (create_server N J settings 42 req s) (fuel_is_enough req s)

  unfoldable pub wait_provision : String → String → ℤ → Call O Server
  wait_provision cmd_id name timeout s =
      let (t, s1) = now N s in
      waits (record { command_id = cmd_id; enrich_name = name; deadline = t +ℤ timeout }) s1

  unfoldable pub wait_terminate : String → ℤ → Call O (Unit {0})
  wait_terminate cmd_id timeout s =
      let (t, s1) = now N s in
      let (r, s2) =
        waits (record { command_id = cmd_id; enrich_name = ""; deadline = t +ℤ timeout }) s1 in
      (elim r [ ok _ ↦ ok tt | err e ↦ err e ], s2)

  -- `*httpClient` as `Client`.
  abbrev pub http_client : CloudClient (State O) Error
  http_client = record {
    create_server = create;
    wait_provision = wait_provision;
    wait_terminate = wait_terminate;
    find_server_by_name = find_server_by_name N J settings;
    terminate_server = terminate_server N J settings;
  }

  result-some : {A : Type 0} (x : Option A) (p : x ≢ none) → x ≡ some (result x p)
  result-some (some a) p = refl
  result-some none p = absurd (p refl)

  -- The creation of a server sends one request with the client id in its headers at most.
  pub create_once :
      (req : CreateServerRequest) (s : State O)
      → count_if has_client_id (create req s).1.sent ≤ 1 + count_if has_client_id s.sent
  unfolding create
  create_once req s =
      let x = create_server N J settings 42 req s in
      let (r, s1) = create req s in
      create_server_once N J settings 42 req s s1 r (result-some x (fuel_is_enough req s))
