-- ===== src/Kamatera/Http/Attempts.antt =====
-- How often `do` (internal/kamatera/client.go) sends a request.
use kamatera_autoscaler.Base.{
  ℕ, zero, suc, ◌≤◌, ℤ, pos_part, Bool, true, false, String, List, ◌∷◌, Option, none, some, Result,
  ◌≡◌, refl, arith, ◌⊎◌, inl, inr, Option-cases, Result-cases, ap, ◌∙◌,
}
use kamatera_autoscaler.Kamatera.Errors.{Error}
use kamatera_autoscaler.Kamatera.Http.{
  Request, Network, Settings, State, Attempt, done, retry, send, wait, request, attempt, attempts,
  do_request, max_attempts, triple,
}

-- A request so many times on top of a list.
abbrev pub repeat {ℓ} : {A : Type ℓ} → ℕ → A → List A → List A
repeat zero a xs = xs
repeat (suc n) a xs = repeat n a (a ∷ xs)

repeat-suc {ℓ} :
    {A : Type ℓ} (n : ℕ) (a : A) (xs : List A) → repeat n a (a ∷ xs) ≡ a ∷ repeat n a xs
repeat-suc zero a xs = refl
repeat-suc (suc n) a xs = repeat-suc n a (a ∷ xs)

module _ {O : Type 0} (N : Network O) (settings : Settings) where
  pub Attempt-cases :
      (a : Attempt N)
      → ((r : Result Error String) × (s : State O) × (a ≡ done r s))
        ⊎ ((e : Error) × (s : State O) × (a ≡ retry e s))
  Attempt-cases (done r s) = inl (r, s, refl)
  Attempt-cases (retry e s) = inr (e, s, refl)

  abbrev state_of : Attempt N → State O
  state_of (done r s) = s
  state_of (retry e s) = s

  -- The second state has sent the first one's requests and so many more, at most, all the same.
  pub record Sends (req : Request) (most : ℕ) (s s' : State O) : Type 0 where
    pub times : ℕ
    pub bound : times ≤ most
    pub sent : s'.sent ≡ repeat times req s.sent

  attempt-sent :
      (method path : String) (body : Option String) (s : State O)
      → let req = request N settings method path body in
        let s' = state_of (attempt N settings method path body s) in
        (s'.sent ≡ s.sent) ⊎ (s'.sent ≡ req ∷ s.sent)
  unfolding attempt send
  attempt-sent method path body s =
      let req = request N settings method path body in
      elim (Option-cases (N.build req)) [
        | inr (e, q) ↦ inl (ground arith)
        | inl good ↦ elim (Result-cases (send N req s).0) [
          | inl (resp, q) ↦ inr (ground arith)
          | inr (e, q) ↦ inr (ground arith)
        ]
      ]

  wait-sent : (d : ℤ) (s : State O) → (wait N d s).1.sent ≡ s.sent
  unfolding wait
  wait-sent d s = refl

  Sends-zero : (req : Request) (most : ℕ) (s s' : State O) → s'.sent ≡ s.sent → Sends req most s s'
  Sends-zero req most s s' e = record { times = 0; bound = omega arith; sent = e }

  Sends-attempt :
      (req : Request) (most : ℕ) (s s' : State O)
      → (s'.sent ≡ s.sent) ⊎ (s'.sent ≡ req ∷ s.sent)
      → Sends req (suc most) s s'
  Sends-attempt req most s s' (inl e) = Sends-zero req (suc most) s s' e
  Sends-attempt req most s s' (inr e) = record { times = 1; bound = omega arith; sent = e }

  Sends-then :
      (req : Request) (most : ℕ) (s s1 s' : State O)
      → (s1.sent ≡ s.sent) ⊎ (s1.sent ≡ req ∷ s.sent)
      → Sends req most s1 s'
      → Sends req (suc most) s s'
  Sends-then req most s s1 s' (inl e) r = record {
    times = r.times;
    bound = omega arith;
    sent = r.sent ∙ ap (repeat r.times req) e;
  }
  Sends-then req most s s1 s' (inr e) r = record {
    times = suc r.times;
    bound = omega arith;
    sent = r.sent ∙ ap (repeat r.times req) e;
  }

  module _ (limit : ℤ) (method path : String) (body : Option String) where
    abbrev req : Request
    req = request N settings method path body

    abbrev run : ℕ → Bool → ℤ → Option Error → State O → Result Error String × State O
    run n waits delay last s = attempts N settings n waits delay last limit method path body s

    attempts-Sends :
        (n : ℕ) (waits : Bool) (delay : ℤ) (last : Option Error) (s : State O)
        → Sends req n s (run n waits delay last s).1
    unfolding attempts
    attempts-Sends zero waits delay last s = Sends-zero req 0 s s refl
    attempts-Sends (suc n) false delay last s =
        elim (Attempt-cases (attempt N settings method path body s)) [
          | inl (r, s1, e) ↦
              rw (e, attempts)
                (Sends-attempt req n s s1 (rw e at (attempt-sent method path body s)))
          | inr (x, s1, e) ↦
              rw (e, attempts)
                (Sends-then req n s s1 _ (rw e at (attempt-sent method path body s))
                  (attempts-Sends n true delay (some x) s1))
        ]
    attempts-Sends (suc n) true delay last s =
        let (stopped, s1) = wait N delay s in
        elim (Option-cases stopped) [
          | inr (x, e) ↦ rw (e, attempts) (Sends-zero req (suc n) s s1 (wait-sent delay s))
          | inl go ↦ elim (Attempt-cases (attempt N settings method path body s1)) [
            | inl (r, s2, e) ↦
                rw (go, e, attempts)
                  (Sends-attempt req n s s2
                    (rw (wait-sent delay s) at (rw e at (attempt-sent method path body s1))))
            | inr (x, s2, e) ↦
                rw (go, e, attempts)
                  (Sends-then req n s s2 _
                    (rw (wait-sent delay s) at (rw e at (attempt-sent method path body s1)))
                    (attempts-Sends n true (triple delay) (some x) s2))
          ]
        ]

  pub do_request-Sends :
      (method path : String) (body : Option String) (retryable : Bool) (s : State O)
      → Sends
          (request N settings method path body)
          (pos_part (max_attempts N settings retryable))
          s
          (do_request N settings method path body retryable s).1
  unfolding do_request
  do_request-Sends method path body retryable s =
      attempts-Sends (max_attempts N settings retryable) method path body
        (pos_part (max_attempts N settings retryable)) false settings.retry_base none s
