-- ===== src/Kamatera/Create/Once.antt =====
-- However a creation ends (internal/kamatera/client.go), it asks for one server at most.
use kamatera_autoscaler.Base.{
  ℕ, zero, suc, ◌+◌, ◌≤◌, ℤ, ◌+ℤ◌, String, List, ◌∷◌, count_if, Option, some, Result, ◌≡◌, refl,
  arith, ◌⊎◌, inl, inr, false, Option-cases, Result-cases,
}
use kamatera_autoscaler.Kamatera.Types.{Server, CreateServerRequest}
use kamatera_autoscaler.Kamatera.Errors.{Error}
use kamatera_autoscaler.Kamatera.Http.{
  Request, Network, Settings, State, sleep_ctx, now, request, do_request,
}
use kamatera_autoscaler.Kamatera.Http.Attempts.{repeat, do_request-Sends}
use kamatera_autoscaler.Kamatera.Console.{Codec}
use kamatera_autoscaler.Kamatera.Console.Laws.{has_client_id, Asks-quiet, list_servers-Asks}
use kamatera_autoscaler.Kamatera.Create.{
  Lookup, stop, again, find_server_by_name, recovery_pass, recovery_loop, recover_by_name,
  create_server,
}

module _ {O : Type 0} (N : Network O) (J : Codec) (settings : Settings) where
  abbrev pub with_client_id : State O → ℕ
  with_client_id s = count_if has_client_id s.sent

  find_server_by_name-quiet :
      (name : String) (s : State O)
      → with_client_id (find_server_by_name N J settings name s).1 ≡ with_client_id s
  unfolding find_server_by_name
  find_server_by_name-quiet name s =
      ground (arith, Asks-quiet N J settings (list_servers-Asks N J settings s))

  abbrev state_of : Lookup O → State O
  state_of (stop r s) = s
  state_of (again s) = s

  sleep_ctx-quiet : (d : ℤ) (s : State O) → with_client_id (sleep_ctx N d s).1 ≡ with_client_id s
  unfolding sleep_ctx
  sleep_ctx-quiet d s = ground arith

  recovery_pass-quiet :
      (name : String) (deadline : ℤ) (s : State O)
      → with_client_id (state_of (recovery_pass N J settings name deadline s)) ≡ with_client_id s
  unfolding recovery_pass now
  recovery_pass-quiet name deadline s =
      let s1 = (find_server_by_name N J settings name s).1 in
      ground (
        arith,
        find_server_by_name-quiet name s,
        sleep_ctx-quiet settings.recovery_poll_every (now N s1).1,
      )

  pub Lookup-cases :
      (p : Lookup O)
      → ((r : Result Error Server) × (s : State O) × (p ≡ stop r s))
        ⊎ ((s : State O) × (p ≡ again s))
  Lookup-cases (stop r s) = inl (r, s, refl)
  Lookup-cases (again s) = inr (s, refl)

  recovery_loop-quiet :
      (fuel : ℕ) (name : String) (deadline : ℤ) (s s' : State O) (r : Result Error Server)
      → recovery_loop N J settings fuel name deadline s ≡ some (r, s')
      → with_client_id s' ≡ with_client_id s
  unfolding recovery_loop
  recovery_loop-quiet zero name deadline s s' r h = cc
  recovery_loop-quiet (suc fuel) name deadline s s' r h =
      elim (Lookup-cases (recovery_pass N J settings name deadline s)) [
        | inl (x, v, e) ↦ ground (arith, recovery_pass-quiet name deadline s)
        | inr (v, e) ↦ ground (
          arith,
          recovery_pass-quiet name deadline s,
          recovery_loop-quiet fuel name deadline v s' r,
        )
      ]

  recover_by_name-quiet :
      (fuel : ℕ) (name : String) (s s' : State O) (r : Result Error Server)
      → recover_by_name N J settings fuel name s ≡ some (r, s')
      → with_client_id s' ≡ with_client_id s
  unfolding recover_by_name now
  recover_by_name-quiet fuel name s s' r h =
      let (stopped, s1) = sleep_ctx N settings.recovery_grace s in
      let (start, s2) = now N s1 in
      ground (
        arith,
        sleep_ctx-quiet settings.recovery_grace s,
        recovery_loop-quiet fuel name (start +ℤ settings.recovery_max) s2 s' r,
      )

  count_if-repeat-le :
      (times : ℕ) (r : Request) (rs : List Request)
      → count_if has_client_id (repeat times r rs) ≤ times + count_if has_client_id rs
  count_if-repeat-le zero r rs = omega arith
  count_if-repeat-le (suc times) r rs = ground (arith, count_if-repeat-le times r (r ∷ rs))

  do_request_once-has_client_id :
      (method path : String) (body : Option String) (s : State O)
      → with_client_id (do_request N settings method path body false s).1 ≤ 1 + with_client_id s
  do_request_once-has_client_id method path body s =
      let r = do_request-Sends N settings method path body false s in
      let req = request N settings method path body in
      rw r.sent (omega (arith, r.bound, count_if-repeat-le r.times req s.sent))

  -- A `CreateServer` that ends has sent one request with the client id in its headers at most, which all
  -- requests to cloudcli have, through whatever recovery it went.
  pub create_server_once :
      (fuel : ℕ) (req : CreateServerRequest) (s s' : State O) (r : Result Error String)
      → create_server N J settings fuel req s ≡ some (r, s')
      → count_if has_client_id s'.sent ≤ 1 + count_if has_client_id s.sent
  unfolding create_server
  create_server_once fuel req s s' r h =
      let body = some (J.write_create req) in
      let once = do_request_once-has_client_id "POST" "/service/server" body s in
      let (answer, s1) = do_request N settings "POST" "/service/server" body false s in
      elim (Result-cases answer) [
        | inl (resp, e) ↦ ground arith
        | inr (x, e) ↦ elim (Option-cases (recover_by_name N J settings fuel req.name s1)) [
          | inl stuck ↦ ground arith
          | inr ((found, s2), q) ↦ ground (arith, recover_by_name-quiet fuel req.name s1 s2 found q)
        ]
      ]
