-- ===== src/Kamatera/Create/Ends.antt =====
-- The recovery loop of internal/kamatera/client.go ends: its clock reaches the deadline.
use kamatera_autoscaler.Base.{
  ℕ, zero, suc, ◌+◌, ◌*◌, ◌<◌, ℤ, pos, pos_part, neg_part, ◌+ℤ◌, +ℤ_parts, false, Later, String,
  none, some, ◌≡◌, ◌≢◌, arith, inl, inr, Option-cases, Result-cases,
}
use kamatera_autoscaler.Kamatera.Types.{CreateServerRequest}
use kamatera_autoscaler.Kamatera.Http.{
  Network, Settings, State, Request, Response, send, now, sleep_ctx, do_request,
}
use kamatera_autoscaler.Kamatera.Console.{
  Codec, auth_request, accept_token, authenticate, ensure_token, bearer_get_once, bearer_get_again,
  bearer_get, list_servers, bearer_request,
}
use kamatera_autoscaler.Kamatera.Create.{
  again, find_server_by_name, recovery_pass, recovery_loop, recover_by_name, create_server,
}
use kamatera_autoscaler.Kamatera.Create.Once.{Lookup-cases}

-- What a clock does: it shows the time, calls take no time back, and a wait that is not cut short
-- lasts at least as long as was asked for.
pub record KeepsTime {O : Type 0} (N : Network O) : Type 0 where
  pub time : O → ℤ
  pub now_shows : (o : O) → (N.now o).0 ≡ time o
  pub now_keeps : (o : O) → Later 0 (time o) (time (N.now o).1)
  pub send_keeps : (r : Request) (o : O) → Later 0 (time o) (time (N.send r o).1)
  pub wait_waits :
      (k : ℕ) (o : O) → (N.wait (pos k) o).0 ≡ none → Later k (time o) (time (N.wait (pos k) o).1)

module _ {O : Type 0} (N : Network O) (C : KeepsTime N) (J : Codec) (settings : Settings) where
  open C use {time}

  -- The second state is no earlier than the first.
  abbrev Keeps : State O → State O → Type 0
  Keeps s s' = Later 0 (time s.outside) (time s'.outside)

  accept_token-Keeps :
      (resp : Response) (s : State O) → Keeps s (accept_token N J settings resp s).1
  unfolding accept_token
  accept_token-Keeps resp s = ground arith

  authenticate-Keeps : (s : State O) → Keeps s (authenticate N J settings s).1
  unfolding authenticate send
  authenticate-Keeps s = elim (Option-cases (N.build (auth_request N J settings))) [
    | inr (e, q) ↦ ground arith
    | inl fine ↦
        let (r, s1) = send N (auth_request N J settings) s in
        elim (Result-cases r) [
          | inl (resp, q) ↦ ground (
            arith,
            accept_token-Keeps resp s1,
            C.send_keeps (auth_request N J settings) s.outside,
          )
          | inr (e, q) ↦ ground (arith, C.send_keeps (auth_request N J settings) s.outside)
        ]
  ]

  ensure_token-Keeps : (s : State O) → Keeps s (ensure_token N J settings s).1
  unfolding ensure_token now
  ensure_token-Keeps s =
      ground (arith, authenticate-Keeps s, authenticate-Keeps (now N s).1, C.now_keeps s.outside)

  bearer_get_once-Keeps :
      (path : String) (s : State O) → Keeps s (bearer_get_once N J settings path s).1
  unfolding bearer_get_once send
  bearer_get_once-Keeps path s =
      ground (arith, C.send_keeps (bearer_request N J settings s.token path) s.outside)

  bearer_get_again-Keeps :
      (path : String) (s : State O) → Keeps s (bearer_get_again N J settings path s).1
  unfolding bearer_get_again
  bearer_get_again-Keeps path s =
      let wiped : State O = record s { token = "" } in
      ground (
        arith,
        ensure_token-Keeps wiped,
        bearer_get_once-Keeps path (ensure_token N J settings wiped).1,
      )

  bearer_get-Keeps : (path : String) (s : State O) → Keeps s (bearer_get N J settings path s).1
  unfolding bearer_get
  bearer_get-Keeps path s =
      let s1 = (ensure_token N J settings s).1 in
      let s2 = (bearer_get_once N J settings path s1).1 in
      ground
        (arith, ensure_token-Keeps s, bearer_get_once-Keeps path s1, bearer_get_again-Keeps path s2)

  find_server_by_name-Keeps :
      (name : String) (s : State O) → Keeps s (find_server_by_name N J settings name s).1
  unfolding find_server_by_name list_servers
  find_server_by_name-Keeps name s = ground (arith, bearer_get-Keeps "/servers" s)

  sleep_ctx-Later :
      (k : ℕ) (s : State O)
      → (sleep_ctx N (pos k) s).0 ≡ none
      → Later k (time s.outside) (time (sleep_ctx N (pos k) s).1.outside)
  unfolding sleep_ctx
  sleep_ctx-Later k s h = ground (arith, C.wait_waits k s.outside)

  -- A pass that asks for another one looked at the clock before the deadline and waited behind it.
  recovery_pass_again :
      (every : ℕ) (name : String) (deadline : ℤ) (s s' : State O)
      → settings.recovery_poll_every ≡ pos every
      → recovery_pass N J settings name deadline s ≡ again s'
      → Later 0 (time s.outside) deadline × Later every (time s.outside) (time s'.outside)
  unfolding recovery_pass now
  recovery_pass_again every name deadline s s' e h =
      let (r, s1) = find_server_by_name N J settings name s in
      let (t, s2) = now N s1 in
      elim (Result-cases r) [
        | inl (srv, q) ↦ ground arith
        | inr (x, q) ↦ ground (
          arith,
          find_server_by_name-Keeps name s,
          C.now_shows s1.outside,
          C.now_keeps s1.outside,
          sleep_ctx-Later every s2,
        )
      ]

  suc_times : (m n : ℕ) → suc m * n ≡ n + m * n
  suc_times m n = omega arith

  recovery_loop_ends :
      (every fuel : ℕ) (name : String) (deadline : ℤ) (s : State O)
      → settings.recovery_poll_every ≡ pos every
      → 0 < every
      → pos_part deadline + neg_part (time s.outside)
        < pos_part (time s.outside) + fuel * every + neg_part deadline
      → recovery_loop N J settings (suc fuel) name deadline s ≢ none
  unfolding recovery_loop
  recovery_loop_ends every zero name deadline s e some_wait h =
      elim (Lookup-cases N J settings (recovery_pass N J settings name deadline s)) [
        | inl (r, v, q) ↦ ground arith
        | inr (v, q) ↦ absurd (omega (arith, recovery_pass_again every name deadline s v e q))
      ]
  recovery_loop_ends every (suc fuel) name deadline s e some_wait h =
      elim (Lookup-cases N J settings (recovery_pass N J settings name deadline s)) [
        | inl (r, v, q) ↦ ground arith
        | inr (v, q) ↦ ground (
          arith,
          suc_times fuel every,
          recovery_pass_again every name deadline s v e q,
          recovery_loop_ends every fuel name deadline v e some_wait,
        )
      ]

  recover_by_name_ends :
      (every fuel max : ℕ) (name : String) (s : State O)
      → settings.recovery_poll_every ≡ pos every
      → 0 < every
      → settings.recovery_max ≡ pos max
      → max < fuel * every
      → recover_by_name N J settings (suc fuel) name s ≢ none
  unfolding recover_by_name now
  recover_by_name_ends every fuel max name s e some_wait m h =
      let s1 = (sleep_ctx N settings.recovery_grace s).1 in
      let (start, s2) = now N s1 in
      elim (Option-cases (sleep_ctx N settings.recovery_grace s).0) [
        | inr (x, q) ↦ ground arith
        | inl q ↦ ground (
          arith,
          C.now_shows s1.outside,
          C.now_keeps s1.outside,
          +ℤ_parts start (pos max),
          recovery_loop_ends every fuel name (start +ℤ pos max) s2 e some_wait,
        )
      ]

  -- With a clock that keeps time, and times between the lookups of the recovery that are positive,
  -- `CreateServer` ends: one more than a number of those times that is longer than `recoveryMax` is
  -- enough fuel.
  pub create_server_ends :
      (every fuel max : ℕ) (req : CreateServerRequest) (s : State O)
      → settings.recovery_poll_every ≡ pos every
      → 0 < every
      → settings.recovery_max ≡ pos max
      → max < fuel * every
      → create_server N J settings (suc fuel) req s ≢ none
  unfolding create_server
  create_server_ends every fuel max req s e some_wait m h =
      let (r, s1) =
        do_request N settings "POST" "/service/server" (some (J.write_create req)) false s in
      elim (Result-cases r) [
        | inl (resp, q) ↦ ground arith
        | inr (x, q) ↦ elim (Option-cases (recover_by_name N J settings (suc fuel) req.name s1)) [
          | inl stuck ↦
              absurd (recover_by_name_ends every fuel max req.name s1 e some_wait m h stuck)
          | inr (found, back) ↦ ground arith
        ]
      ]
