-- ===== src/Kamatera/Http/Answers.antt =====
-- What the results of `do` (internal/kamatera/client.go) mean.
use kamatera_autoscaler.Base.{
  ℕ, zero, suc, ◌≤◌, ◌<◌, ℤ, pos, pos_part, ◌≤ℤ◌, +ℤ_parts, leb, ltb, Bool, true, false, ◌&&◌,
  if◌then◌else◌, String, Option, none, some, Result, ok, err, ◌≡◌, refl, ◌≢◌, arith, ◌⊎◌, inl, inr,
  Option-cases, Result-cases,
}
use kamatera_autoscaler.Kamatera.Errors.{Error, api, message}
use kamatera_autoscaler.Kamatera.Redact.{redact_err}
use kamatera_autoscaler.Kamatera.Http.Attempts.{Attempt-cases}
use kamatera_autoscaler.Kamatera.Http.{
  Request, Response, Network, Settings, State, done, send, wait, request, attempt, attempts,
  do_request, max_attempts, triple,
}

module _ {O : Type 0} (N : Network O) (settings : Settings) where
  attempts_positive :
      (retryable : Bool)
      → pos 0 ≤ℤ settings.max_retries
      → pos_part (max_attempts N settings retryable) ≢ 0
  attempts_positive retryable nonneg = ground (arith, +ℤ_parts settings.max_retries (pos 1))

  module _ (limit : ℤ) (method path : String) (body : Option String) where
    abbrev req : Request
    req = request N settings method path body

    abbrev run : ℕ → Bool → ℤ → Option Error → State O → Result Error String × State O
    run n waits delay last s = attempts N settings n waits delay last limit method path body s

    -- The last request sent was answered with a status from 200 to 299 and the body.
    pub record Answered (b : String) (s' : State O) : Type 0 where
      pub before : O
      pub resp : Response
      pub exchange : N.send req before ≡ (ok resp, s'.outside)
      pub good : (200 ≤ resp.code) × (resp.code < 300)
      pub same : resp.body ≡ b

    attempt-Answered :
        (b : String) (s s' : State O)
        → attempt N settings method path body s ≡ done (ok b) s'
        → Answered b s'
    unfolding attempt send
    attempt-Answered b s s' h = elim (Option-cases (N.build req)) [
      | inr (e, q) ↦ ground arith
      | inl fine ↦ elim (Result-cases (N.send req s.outside).0) [
        | inr (e, q) ↦ ground arith
        | inl (resp, q) ↦ record {
          before = s.outside;
          resp = resp;
          exchange = ground arith;
          good = ground arith;
          same = ground arith;
        }
      ]
    ]

    attempts-Answered :
        (n : ℕ) (waits : Bool) (delay : ℤ) (last : Option Error) (b : String) (s s' : State O)
        → (n ≢ 0) ⊎ (last ≢ none)
        → run n waits delay last s ≡ (ok b, s')
        → Answered b s'
    unfolding attempts
    attempts-Answered zero waits delay last b s s' some_try h = elim some_try [
      | inl none_left ↦ absurd (none_left refl)
      | inr failed ↦ ground arith
    ]
    attempts-Answered (suc n) false delay last b s s' some_try h =
        elim (Attempt-cases N settings (attempt N settings method path body s)) [
          | inl (r, s1, e) ↦ attempt-Answered b s s' (ground arith)
          | inr (x, s1, e) ↦
              attempts-Answered n true delay (some x) b s1 s' (inr (λ p. cc)) (ground arith)
        ]
    attempts-Answered (suc n) true delay last b s s' some_try h =
        let s1 = (wait N delay s).1 in
        elim (Option-cases (wait N delay s).0) [
          | inr (x, e) ↦ ground arith
          | inl go ↦ elim (Attempt-cases N settings (attempt N settings method path body s1)) [
            | inl (r, s2, e) ↦ attempt-Answered b s1 s' (ground arith)
            | inr (x, s2, e) ↦
                attempts-Answered n true (triple delay) (some x) b s2 s' (inr (λ p. cc))
                  (ground arith)
          ]
        ]

  -- With `maxRetries` not negative, `do` returns a body only if that came with the answer to the
  -- request sent last, under a status from 200 to 299.
  pub do_request-Answered :
      (method path : String) (body : Option String) (retryable : Bool) (b : String) (s s' : State O)
      → pos 0 ≤ℤ settings.max_retries
      → do_request N settings method path body retryable s ≡ (ok b, s')
      → Answered (max_attempts N settings retryable) method path body b s'
  unfolding do_request
  do_request-Answered method path body retryable b s s' nonneg h =
      attempts-Answered (max_attempts N settings retryable) method path body
        (pos_part (max_attempts N settings retryable)) false settings.retry_base none b s s'
        (inl (attempts_positive retryable nonneg)) h

  -- A request that may not be retried: refused before it is sent, lost on the way, answered well, or
  -- answered with another status, which the error keeps as it is.
  pub do_request_once :
      (method path : String) (body : Option String) (s : State O)
      → let req = request N settings method path body in
        let (r, s') = do_request N settings method path body false s in
        ((e : String) × (N.build req ≡ some e) × (r ≡ err (message e)) × (s' ≡ s))
        ⊎ (((e : String) × ((send N req s).0 ≡ err e)
              × (r ≡ err (message (redact_err e)))
              × (s' ≡ (send N req s).1))
            ⊎ ((resp : Response) × ((send N req s).0 ≡ ok resp)
                × (s' ≡ (send N req s).1)
                × (r ≡ (
                    if leb 200 resp.code && ltb resp.code 300
                    then ok resp.body
                    else err (
                        api (record {
                          method = method;
                          path = path;
                          code = resp.code;
                          body = resp.body;
                        }))))))
  unfolding do_request attempts attempt
  do_request_once method path body s =
      let req = request N settings method path body in
      elim (Option-cases (N.build req)) [
        | inr (e, q) ↦ inl (e, q, ground arith, ground arith)
        | inl fine ↦ elim (Result-cases (send N req s).0) [
          | inr (e, q) ↦ inr (inl (e, q, ground arith, ground arith))
          | inl (resp, q) ↦ inr (inr (resp, q, ground arith, ground arith))
        ]
      ]
