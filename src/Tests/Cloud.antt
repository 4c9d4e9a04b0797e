-- ===== src/Tests/Cloud.antt =====
-- The theorems on internal/kamatera at concrete data.

use kamatera_autoscaler.Base.{
  +ℤ_parts, none, ◌+◌, ◌≤◌, ℤ, pos, ◌+ℤ◌, true, false, ◌≡◌, ◌≢◌, refl, [], ◌∷◌, none, some, ok, err,
  count_if, arith, text_discrete,
}
use kamatera_autoscaler.Base.Dict.{lookup}
use kamatera_autoscaler.Tests.{lossy, answering, codec, settings, fresh_state, vm}
use kamatera_autoscaler.Kamatera.Types.{CreateServerRequest}
use kamatera_autoscaler.Kamatera.Errors.{Error, create_recovered, is_transport_error, as_api_error}
use kamatera_autoscaler.Kamatera.Redact.{redact_err}
use kamatera_autoscaler.Kamatera.Http.{
  State, Request, request, do_request, attempts, attempt, send, sleep_ctx, now,
}
use kamatera_autoscaler.Kamatera.Http.Answers.{Answered, do_request-Answered}
use kamatera_autoscaler.Kamatera.Console.{
  bearer_get, bearer_get_once, ensure_token, authenticate, accept_token, auth_request, list_servers,
  bearer_request,
}
use kamatera_autoscaler.Kamatera.Console.Laws.{has_client_id}
use kamatera_autoscaler.Kamatera.Create.{
  create_server, find_server_by_name, recover_by_name, recovery_loop, recovery_pass, server_named,
}
use kamatera_autoscaler.Kamatera.Create.Ends.{KeepsTime, create_server_ends}
use kamatera_autoscaler.Kamatera.Create.Once.{create_server_once}
use kamatera_autoscaler.Kamatera.Create.Recovery.{create_server_recovered}

abbrev create_n1 : CreateServerRequest
create_n1 = record {
  name = "n1";
  password = "__generate__";
  ssh_key = "key";
  datacenter = "EU";
  image = "ubuntu";
  cpu = "2B";
  ram = pos 2048;
  disk = "size=20";
  network = "name=wan,ip=auto";
  billing_cycle = "hourly";
  power_on = "yes";
  script_file = "";
}

abbrev creation : Request
creation = request lossy settings "POST" "/service/server" (some "create")

abbrev servers_request : Request
servers_request = bearer_request lossy codec settings "token" "/servers"

-- The request is lost, and the server is found half a minute later.
abbrev recovered_state : State ℤ
recovered_state = record {
  token = "token";
  expires_at = pos 1000000000000;
  outside = pos 30000000000;
  sent = servers_request ∷ auth_request lossy codec settings ∷ creation ∷ [];
}

create_run :
    create_server lossy codec settings 1 create_n1 fresh_state
    ≡ some (err (create_recovered vm), recovered_state)
unfolding create_server do_request attempts attempt send lookup request text_discrete
    is_transport_error as_api_error recover_by_name sleep_ctx recovery_loop recovery_pass
    find_server_by_name list_servers bearer_get ensure_token authenticate accept_token auth_request
    bearer_get_once bearer_request server_named now redact_err ◌+ℤ◌
create_run = refl

create_server_once_example : count_if has_client_id recovered_state.sent ≤ 1 + 0
create_server_once_example =
    create_server_once lossy codec settings 1 create_n1 fresh_state recovered_state
      (err (create_recovered vm)) create_run

create_server_recovered_example :
    (vm.name ≡ create_n1.name)
    × ((e : Error) × ((do_request lossy settings "POST" "/service/server"
            (some "create")
            false
            fresh_state).0
          ≡ err e)
        × (is_transport_error (some e) ≡ true))
create_server_recovered_example =
    create_server_recovered lossy codec settings 1 create_n1 fresh_state recovered_state vm
      create_run

abbrev answered_state : State ℤ
answered_state = record fresh_state {
  sent = request (answering 200) settings "GET" "/queue" none ∷ [];
}

answered_run :
    do_request (answering 200) settings "GET" "/queue" none true fresh_state
    ≡ (ok "x", answered_state)
unfolding do_request attempts ◌+ℤ◌ attempt send
answered_run = refl

do_request-Answered_example :
    Answered (answering 200) settings (pos 4) "GET" "/queue" none "x" answered_state
unfolding ◌+ℤ◌
do_request-Answered_example =
    do_request-Answered (answering 200) settings "GET" "/queue" none true "x" fresh_state
      answered_state (omega arith) answered_run

abbrev lossy_clock : KeepsTime lossy
lossy_clock = record {
  time = λ t. t;
  now_shows = λ t. refl;
  now_keeps = λ t. omega arith;
  send_keeps = λ r t. omega arith;
  wait_waits = λ k t e. omega (arith, +ℤ_parts t (pos k));
}

create_server_ends_example : create_server lossy codec settings 42 create_n1 fresh_state ≢ none
create_server_ends_example =
    create_server_ends lossy lossy_clock codec settings 15000000000 41 600000000000 create_n1
      fresh_state refl (omega arith) refl (omega arith)
