-- ===== src/Kamatera/Create/Recovery.antt =====
-- What `CreateServer` reports after a request that was lost on the way (internal/kamatera/client.go).
use kamatera_autoscaler.Base.{
  ℕ, zero, suc, ℤ, ◌+ℤ◌, String, some, Result, ok, err, ◌≡◌, arith, ◌≢◌, inl, inr, true, false,
  Option-cases, Result-cases, Bool-cases,
}
use kamatera_autoscaler.Kamatera.Types.{Server, CreateServerRequest}
use kamatera_autoscaler.Kamatera.Errors.{Error, create_recovered, is_transport_error, as_api_error}
use kamatera_autoscaler.Kamatera.Http.{Network, Settings, State, sleep_ctx, now, do_request}
use kamatera_autoscaler.Kamatera.Console.{Codec}
use kamatera_autoscaler.Kamatera.Create.{
  stop, find_server_by_name, command_id, recovery_pass, recovery_loop, recover_by_name,
  create_server, after_recovery,
}
use kamatera_autoscaler.Kamatera.Create.Find.{find_server_by_name-name}
use kamatera_autoscaler.Kamatera.Create.Once.{Lookup-cases}

module _ {O : Type 0} (N : Network O) (J : Codec) (settings : Settings) where
  recovery_pass-name :
      (name : String) (deadline : ℤ) (s s' : State O) (srv : Server)
      → recovery_pass N J settings name deadline s ≡ stop (ok srv) s'
      → srv.name ≡ name
  unfolding recovery_pass
  recovery_pass-name name deadline s s' srv h =
      let (r, s1) = find_server_by_name N J settings name s in
      elim (Result-cases r) [
        | inl (v, e) ↦ ground (arith, find_server_by_name-name N J settings name s s1 v)
        | inr (x, e) ↦ ground arith
      ]

  recovery_loop-name :
      (fuel : ℕ) (name : String) (deadline : ℤ) (s s' : State O) (srv : Server)
      → recovery_loop N J settings fuel name deadline s ≡ some (ok srv, s')
      → srv.name ≡ name
  unfolding recovery_loop
  recovery_loop-name zero name deadline s s' srv h = cc
  recovery_loop-name (suc fuel) name deadline s s' srv h =
      elim (Lookup-cases N J settings (recovery_pass N J settings name deadline s)) [
        | inl (x, v, e) ↦ recovery_pass-name name deadline s v srv (ground arith)
        | inr (v, e) ↦ recovery_loop-name fuel name deadline v s' srv (ground arith)
      ]

  recover_by_name-name :
      (fuel : ℕ) (name : String) (s s' : State O) (srv : Server)
      → recover_by_name N J settings fuel name s ≡ some (ok srv, s')
      → srv.name ≡ name
  unfolding recover_by_name
  recover_by_name-name fuel name s s' srv h =
      let (stopped, s1) = sleep_ctx N settings.recovery_grace s in
      let (start, s2) = now N s1 in
      ground (arith, recovery_loop-name fuel name (start +ℤ settings.recovery_max) s2 s' srv)

  not_recovered :
      (x : Error) (srv : Server) → is_transport_error (some x) ≡ false → x ≢ create_recovered srv
  unfolding is_transport_error as_api_error
  not_recovered x srv h e = ground arith

  recovered_name :
      (fuel : ℕ) (name : String) (x : Error) (found : Result Error Server) (srv : Server)
      (s s' : State O)
      → recover_by_name N J settings fuel name s ≡ some (found, s')
      → after_recovery name x found ≡ err (create_recovered srv)
      → srv.name ≡ name
  recovered_name fuel name x found srv s s' q h = elim (Result-cases found) [
    | inl (v, e) ↦ recover_by_name-name fuel name s s' srv (ground arith)
    | inr (y, e) ↦ ground arith
  ]

  -- `CreateServer` reports a recovered server only after a request that failed in transport, and the
  -- server has the name that was asked for.
  pub create_server_recovered :
      (fuel : ℕ) (req : CreateServerRequest) (s s' : State O) (srv : Server)
      → create_server N J settings fuel req s ≡ some (err (create_recovered srv), s')
      → (srv.name ≡ req.name)
        × ((e : Error) × ((do_request N settings "POST" "/service/server"
                (some (J.write_create req))
                false
                s).0
              ≡ err e)
            × (is_transport_error (some e) ≡ true))
  unfolding create_server command_id
  create_server_recovered fuel req s s' srv h =
      let body = some (J.write_create req) in
      let (answer, s1) = do_request N settings "POST" "/service/server" body false s in
      elim (Result-cases answer) [
        | inl (resp, e) ↦ ground arith
        | inr (x, e) ↦ elim (Bool-cases (is_transport_error (some x))) [
          | inr answered ↦ absurd (not_recovered x srv answered (ground arith))
          | inl lost ↦ elim (Option-cases (recover_by_name N J settings fuel req.name s1)) [
            | inl stuck ↦ ground arith
            | inr ((found, s2), q) ↦
                (recovered_name fuel req.name x found srv s1 s2 q (ground arith), (x, e, lost))
          ]
        ]
      ]
