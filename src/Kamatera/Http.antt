-- ===== src/Kamatera/Http.antt =====
-- `httpClient` of internal/kamatera/client.go: its state, and `do` with its retries. The requests
-- that were sent are noted, newest first.
pub mod Attempts
pub mod Answers
use kamatera_autoscaler.Base.{
  ℕ, zero, suc, ◌*◌, ℤ, pos, sub_ℕ, pos_part, neg_part, wrap_int64, ◌+ℤ◌, leb_ℤ, leb, ltb, Bool,
  true, false, ◌&&◌, if◌then◌else◌, String, ◌<>◌, List, [], ◌∷◌, Option, none, some, Result, ok,
  err,
}
use kamatera_autoscaler.Base.Dict.{Dict}
use kamatera_autoscaler.Base.Decimal.{decimal}
use kamatera_autoscaler.Config.{Credentials}
use kamatera_autoscaler.Kamatera.Errors.{
  Error, api, message, context_error, wrapped, ApiError, client,
}
use kamatera_autoscaler.Kamatera.Redact.{redact_err}

pub record Request : Type 0 where
  pub method : String
  pub url : String
  pub headers : Dict String
  pub body : Option String

pub record Response : Type 0 where
  pub code : ℕ
  pub body : String

-- net/http and the clock: what building a request refuses, what sending one gives, and the wait for
-- a time or the end of the context. An error is its text.
pub record Network (O : Type 0) : Type 0 where
  pub build : Request → Option String
  pub send : Request → O → Result String Response × O
  pub wait : ℤ → O → Option String × O
  pub now : O → ℤ × O
  -- `ctx.Err()`
  pub ended : O → Option String

-- The fields of `httpClient` and `consoleClient` that do not change.
pub record Settings : Type 0 where
  pub base_url : String
  pub console_base_url : String
  pub creds : Credentials
  pub max_retries : ℤ
  pub retry_base : ℤ
  pub poll_interval : ℤ
  pub recovery_grace : ℤ
  pub recovery_poll_every : ℤ
  pub recovery_max : ℤ

abbrev pub default_settings : Credentials → Settings
default_settings creds = record {
  base_url = "https://cloudcli.cloudwm.com";
  console_base_url = "https://console.kamatera.com/service";
  creds = creds;
  max_retries = pos 3;
  retry_base = pos 1000000000;
  poll_interval = pos 15000000000;
  recovery_grace = pos 30000000000;
  recovery_poll_every = pos 15000000000;
  recovery_max = pos 600000000000;
}

-- The token of `consoleClient` with its expiry, the world, and the requests sent.
pub record State (O : Type 0) : Type 0 where
  pub token : String
  pub expires_at : ℤ
  pub outside : O
  pub sent : List Request

abbrev pub Call : Type 0 → Type 0 → Type 0
Call O A = State O → Result Error A × State O

-- `delay *= 3` on an int64.
unfoldable pub triple : ℤ → ℤ
triple d = wrap_int64 (sub_ℕ (3 * pos_part d) (3 * neg_part d))

module _ {O : Type 0} (N : Network O) where
  unfoldable pub send : Request → State O → Result String Response × State O
  send req s =
      let (r, o) = N.send req s.outside in (r, record s { outside = o; sent = req ∷ s.sent })

  unfoldable pub wait : ℤ → State O → Option String × State O
  wait d s = let (r, o) = N.wait d s.outside in (r, record s { outside = o })

  -- A sleep gives the error of the context where Go gives false.
  unfoldable pub sleep_ctx : ℤ → State O → Option String × State O
  unfolding wait
  sleep_ctx d s = if leb_ℤ d (pos 0) then (N.ended s.outside, s) else wait d s

  unfoldable pub now : State O → ℤ × State O
  now s = let (t, o) = N.now s.outside in (t, record s { outside = o })

  -- How an attempt ends.
  pub data Attempt : Type 0 where
    done : Result Error String → State O → Attempt
    retry : Error → State O → Attempt

  module _ (settings : Settings) where
    unfoldable pub request : String → String → Option String → Request
    request method path body = record {
      method = method;
      url = settings.base_url <> path;
      headers =
          ("AuthClientId", settings.creds.kamatera_client_id)
          ∷ ("AuthSecret", settings.creds.kamatera_secret)
          ∷ ("Accept", "application/json")
          ∷ (elim body [ none ↦ [] | some b ↦ ("Content-Type", "application/json") ∷ [] ]);
      body = body;
    }

    -- The body of the loop, after the wait.
    unfoldable pub attempt : String → String → Option String → State O → Attempt
    attempt method path body s =
        let req = request method path body in
        elim (N.build req) [
          | some e ↦ done (err (message e)) s
          | none ↦
              let (r, s1) = send req s in
              elim r [
                | err e ↦ retry (message (redact_err e)) s1
                | ok resp ↦
                    let status_err : ApiError = record {
                      method = method;
                      path = path;
                      code = resp.code;
                      body = resp.body;
                    } in
                    if leb 200 resp.code && ltb resp.code 300
                    then done (ok resp.body) s1
                    else if client status_err
                    then done (err (api status_err)) s1
                    else retry (api status_err) s1
              ]
        ]

    -- `return nil, lastErr` at the end, where `lastErr` may still be nil.
    abbrev give_up : ℤ → Option Error → Result Error String
    give_up max_attempts none = ok ""
    give_up max_attempts (some e) =
        if leb_ℤ max_attempts (pos 1)
        then err e
        else err (wrapped ("after " <> (decimal max_attempts <> " attempts")) e)

    -- The attempts left, whether one was made, and the next delay.
    unfoldable pub attempts :
        ℕ → Bool → ℤ → Option Error → ℤ → String → String → Option String → Call O String
    attempts zero waits delay last max_attempts method path body s = (give_up max_attempts last, s)
    attempts (suc n) false delay last max_attempts method path body s =
        elim (attempt method path body s) [
          | done r s1 ↦ (r, s1)
          | retry e s1 ↦ attempts n true delay (some e) max_attempts method path body s1
        ]
    attempts (suc n) true delay last max_attempts method path body s =
        let (stopped, s1) = wait delay s in
        elim stopped [
          | some e ↦ (err (context_error e), s1)
          | none ↦ elim (attempt method path body s1) [
            | done r s2 ↦ (r, s2)
            | retry e s2 ↦ attempts n true (triple delay) (some e) max_attempts method path body s2
          ]
        ]

    abbrev pub max_attempts : Bool → ℤ
    max_attempts retryable = if retryable then settings.max_retries +ℤ pos 1 else pos 1

    -- `do`
    unfoldable pub do_request : String → String → Option String → Bool → Call O String
    do_request method path body retryable =
        attempts (pos_part (max_attempts retryable)) false settings.retry_base none
          (max_attempts retryable) method path body
