-- ===== src/Kamatera/Create.antt =====
-- `CreateServer`, `recoverByName`, `TerminateServer` and `FindServerByName` of
-- internal/kamatera/client.go. `none` where the fuel of the recovery loop runs out.
pub mod Find
pub mod Once
pub mod Recovery
pub mod Ends
use kamatera_autoscaler.Base.{
  ℕ, zero, suc, ℤ, ltb_ℤ, ◌+ℤ◌, true, false, not, if◌then◌else◌, String, ◌<>◌, ◌==◌, List, [], ◌∷◌,
  Option, none, some, Result, ok, err,
}
use kamatera_autoscaler.Kamatera.Types.{Server, CreateServerRequest}
use kamatera_autoscaler.Kamatera.CommandId.{decode_command_id}
use kamatera_autoscaler.Kamatera.Errors.{
  Error, message, wrapped, context_error, server_not_found, create_recovered, is_client_error,
  is_transport_error,
}
use kamatera_autoscaler.Kamatera.Redact.{truncate}
use kamatera_autoscaler.Kamatera.Http.{Network, Settings, State, Call, sleep_ctx, now, do_request}
use kamatera_autoscaler.Kamatera.Console.{Codec, list_servers}

-- The loop of `FindServerByName`.
unfoldable pub server_named : String → List Server → Option Server
server_named name [] = none
server_named name (s ∷ ss) = if s.name == name then some s else server_named name ss

-- How a pass of the recovery loop ends.
pub data Lookup (O : Type 0) : Type 0 where
  stop : Result Error Server → State O → Lookup O
  again : State O → Lookup O

-- What `CreateServer` makes of the outcome of its recovery.
abbrev pub after_recovery : String → Error → Result Error Server → Result Error String
after_recovery name e (ok srv) = err (create_recovered srv)
after_recovery name e (err x) =
    err (wrapped ("create transport failed and recovery did not find " <> name) e)

module _ {O : Type 0} (N : Network O) (J : Codec) (settings : Settings) where
  unfoldable pub find_server_by_name : String → Call O Server
  find_server_by_name name s =
      if name == ""
      then (err (message "name is empty"), s)
      else let (r, s1) = list_servers N J settings s in
        (
          elim r [
            | err e ↦ err e
            | ok servers ↦ elim (server_named name servers) [
              | some srv ↦ ok srv
              | none ↦ err (server_not_found name)
            ]
          ],
          s1,
        )

  -- The command id in the response, or an error that names the operation.
  unfoldable pub command_id : String → String → Result Error String
  command_id operation resp = elim (decode_command_id (J.read_json resp)) [
    | some id ↦ ok id
    | none ↦ err (
        wrapped ("decode " <> (operation <> " response"))
          (message ("no command id in response: " <> truncate resp 200)))
  ]

  unfoldable pub terminate_server : String → Call O String
  terminate_server server_id s =
      if server_id == ""
      then (err (message "serverID is empty"), s)
      else let (r, s1) =
          do_request N settings "POST" "/service/server/terminate"
            (some (J.write_terminate server_id)) true s in
        (elim r [ err e ↦ err e | ok resp ↦ command_id "terminate-server" resp ], s1)

  -- One pass, up to the wait behind it.
  unfoldable pub recovery_pass : String → ℤ → State O → Lookup O
  recovery_pass name deadline s =
      let (r, s1) = find_server_by_name name s in
      elim r [
        | ok srv ↦ stop (ok srv) s1
        | err e ↦
            if is_client_error (some e)
            then stop (err (wrapped "recovery aborted" e)) s1
            else let (t, s2) = now N s1 in
              if ltb_ℤ deadline t
              then stop (err (message "recovery timed out")) s2
              else let (stopped, s3) = sleep_ctx N settings.recovery_poll_every s2 in
                elim stopped [ some c ↦ stop (err (context_error c)) s3 | none ↦ again s3 ]
      ]

  unfoldable pub recovery_loop : ℕ → String → ℤ → State O → Option (Result Error Server × State O)
  recovery_loop zero name deadline s = none
  recovery_loop (suc fuel) name deadline s = elim (recovery_pass name deadline s) [
    | stop r s1 ↦ some (r, s1)
    | again s1 ↦ recovery_loop fuel name deadline s1
  ]

  unfoldable pub recover_by_name : ℕ → String → State O → Option (Result Error Server × State O)
  recover_by_name fuel name s =
      let (stopped, s1) = sleep_ctx N settings.recovery_grace s in
      elim stopped [
        | some c ↦ some (err (context_error c), s1)
        | none ↦
            let (start, s2) = now N s1 in
            recovery_loop fuel name (start +ℤ settings.recovery_max) s2
      ]

  unfoldable pub create_server :
      ℕ → CreateServerRequest → State O → Option (Result Error String × State O)
  create_server fuel req s =
      let (r, s1) =
        do_request N settings "POST" "/service/server" (some (J.write_create req)) false s in
      elim r [
        | ok resp ↦ some (command_id "create-server" resp, s1)
        | err e ↦
            if not (is_transport_error (some e))
            then some (err e, s1)
            else elim (recover_by_name fuel req.name s1) [
              | none ↦ none
              | some (found, s2) ↦ some (after_recovery req.name e found, s2)
            ]
      ]
