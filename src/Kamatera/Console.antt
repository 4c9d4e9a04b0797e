-- ===== src/Kamatera/Console.antt =====
-- internal/kamatera/console_client.go: the token, and the queries that go with it. Here a query runs
-- to its end; Queries has the turns that several take.
pub mod Laws
pub mod Queries
pub mod Retry
use kamatera_autoscaler.Base.{
  ℤ, pos, sub_ℕ, pos_part, neg_part, ◌*◌, ◌+ℤ◌, ltb_ℤ, leb, ltb, eqb, Bool, false, not, ◌&&◌,
  if◌then◌else◌, String, ◌<>◌, ◌==◌, List, [], ◌∷◌, Option, none, some, Result, ok, err, map_err,
}
use kamatera_autoscaler.Config.{Credentials}
use kamatera_autoscaler.Kamatera.Types.{Server, QueueStatus, CreateServerRequest}
use kamatera_autoscaler.Kamatera.Json.{Json}
use kamatera_autoscaler.Kamatera.Errors.{Error, api, message, wrapped, as_api_error}
use kamatera_autoscaler.Kamatera.Redact.{redact_err, truncate}
use kamatera_autoscaler.Kamatera.Http.{Request, Response, Network, Settings, Call, send, now}

-- `authResponse`; the expiry is in seconds.
pub record AuthResponse : Type 0 where
  pub authentication : String
  pub expires : ℤ

-- encoding/json: what it writes for the requests, and what it reads in the responses. An error is
-- its text.
pub record Codec : Type 0 where
  pub write_auth : Credentials → String
  pub write_create : CreateServerRequest → String
  pub write_terminate : String → String
  pub read_json : String → Option Json
  pub read_auth : String → Result String AuthResponse
  pub read_queue : String → Result String (List QueueStatus)
  pub read_servers : String → Result String (List Server)

-- `time.Unix`, in nanoseconds.
abbrev pub from_unix : ℤ → ℤ
from_unix t = sub_ℕ (1000000000 * pos_part t) (1000000000 * neg_part t)

abbrev pub is_success : Response → Bool
is_success resp = leb 200 resp.code && ltb resp.code 300

-- The status of an error that wraps an answer of the API.
abbrev pub is_unauthorized : Error → Bool
is_unauthorized e = elim (as_api_error e) [ none ↦ false | some a ↦ eqb a.code 401 ]

module _ {O : Type 0} (N : Network O) (J : Codec) (settings : Settings) where
  unfoldable pub auth_request : Request
  auth_request = record {
    method = "POST";
    url = settings.console_base_url <> "/authenticate";
    headers = ("Content-Type", "application/json") ∷ ("Accept", "application/json") ∷ [];
    body = some (J.write_auth settings.creds);
  }

  -- What the response to the authentication gives.
  unfoldable pub accept_token : Response → Call O (Unit {0})
  accept_token resp s =
      if not (is_success resp)
      then (
        err (
            api (record {
              method = "POST";
              path = "/authenticate";
              code = resp.code;
              body = resp.body;
            })),
        s,
      )
      else elim (J.read_auth resp.body) [
        | err e ↦ (err (wrapped "decode authenticate response" (message e)), s)
        | ok ar ↦
            if ar.authentication == ""
            then (err (message "authenticate: empty token in response"), s)
            else (ok tt, record s { token = ar.authentication; expires_at = from_unix ar.expires })
      ]

  unfoldable pub authenticate : Call O (Unit {0})
  authenticate s = elim (N.build auth_request) [
    | some e ↦ (err (message e), s)
    | none ↦
        let (r, s1) = send N auth_request s in
        elim r [
          | err e ↦ (err (wrapped "authenticate" (message (redact_err e))), s1)
          | ok resp ↦ accept_token resp s1
        ]
  ]

  unfoldable pub ensure_token : Call O (Unit {0})
  ensure_token s =
      if s.token == ""
      then authenticate s
      else let (t, s1) = now N s in
        if ltb_ℤ (t +ℤ pos 30000000000) s.expires_at then (ok tt, s1) else authenticate s1

  unfoldable pub bearer_request : String → String → Request
  bearer_request token path = record {
    method = "GET";
    url = settings.console_base_url <> path;
    headers = ("Authorization", "Bearer " <> token) ∷ ("Accept", "application/json") ∷ [];
    body = none;
  }

  -- `bearerGetOnce` behind its reading of the token.
  unfoldable pub bearer_get_with : String → String → Call O String
  bearer_get_with token path s =
      let req = bearer_request token path in
      elim (N.build req) [
        | some e ↦ (err (message e), s)
        | none ↦
            let (r, s1) = send N req s in
            (
              elim r [
                | err e ↦ err (wrapped ("kamatera: GET " <> path) (message (redact_err e)))
                | ok resp ↦
                    if not (is_success resp)
                    then err (
                        api (record {
                          method = "GET";
                          path = path;
                          code = resp.code;
                          body = resp.body;
                        }))
                    else ok resp.body
              ],
              s1,
            )
      ]

  unfoldable pub bearer_get_once : String → Call O String
  unfolding bearer_get_with
  bearer_get_once path s = bearer_get_with s.token path s

  -- The second half of `bearerGet`: with the token wiped.
  unfoldable pub bearer_get_again : String → Call O String
  bearer_get_again path s =
      let (fresh, s1) = ensure_token (record s { token = "" }) in
      elim fresh [ err e ↦ (err e, s1) | ok _ ↦ bearer_get_once path s1 ]

  unfoldable pub bearer_get : String → Call O String
  bearer_get path s =
      let (ready, s1) = ensure_token s in
      elim ready [
        | err e ↦ (err e, s1)
        | ok _ ↦
            let (r, s2) = bearer_get_once path s1 in
            elim r [
              | ok body ↦ (ok body, s2)
              | err e ↦ if is_unauthorized e then bearer_get_again path s2 else (err e, s2)
            ]
      ]

  unfoldable pub decode_queue_statuses : String → Result Error (List QueueStatus)
  decode_queue_statuses body =
      map_err
        (λ e.
          wrapped "decode queue array" (message (e <> (" (body: " <> (truncate body 200 <> ")")))))
        (J.read_queue body)

  unfoldable pub list_queue : Call O (List QueueStatus)
  list_queue s =
      let (r, s1) = bearer_get "/queue" s in
      (elim r [ err e ↦ err e | ok body ↦ decode_queue_statuses body ], s1)

  unfoldable pub list_servers : Call O (List Server)
  list_servers s =
      let (r, s1) = bearer_get "/servers" s in
      (
        elim r [
          | err e ↦ err e
          | ok body ↦
              map_err (λ e. wrapped "decode /servers response" (message e)) (J.read_servers body)
        ],
        s1,
      )
