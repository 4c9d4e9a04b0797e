-- ===== src/Kamatera/Console/Laws.antt =====
-- The token and the requests of the console client (internal/kamatera/console_client.go).
use mathlib.Core.List.{append_assoc}
use kamatera_autoscaler.Base.{
  ◌<>◌, List, [], ◌++◌, All, All-append, length-append, ap, sym, ◌∙◌, ℕ, ◌+◌, ◌≤◌, pos, ◌+ℤ◌, ◌<ℤ◌,
  ltb_ℤ, ltb_ℤ→lt, Bool, false, String, ◌==◌, ◌∷◌, count_if, length, is_some, ok, ◌≡◌, ◌≢◌, refl,
  arith, ◌⊎◌, inl, inr, Option-cases, Result-cases, Bool-cases, text_discrete,
}
use kamatera_autoscaler.Base.Dict.{lookup}
use kamatera_autoscaler.Kamatera.Http.{Request, Response, Network, Settings, State, send, now}
use kamatera_autoscaler.Kamatera.Console.{
  Codec, is_unauthorized, auth_request, accept_token, authenticate, ensure_token, bearer_request,
  bearer_get_with, bearer_get_once, bearer_get_again, bearer_get, list_servers,
}

-- A request with the client id in its headers, as `do` of client.go sends all of its own, wherever
-- they go.
abbrev pub has_client_id : Request → Bool
has_client_id r = is_some (lookup "AuthClientId" r.headers)

module _ {O : Type 0} (N : Network O) (J : Codec) (settings : Settings) where
  abbrev with_client_id : State O → ℕ
  with_client_id s = count_if has_client_id s.sent

  auth_request-has_client_id : has_client_id (auth_request N J settings) ≡ false
  unfolding auth_request lookup text_discrete
  auth_request-has_client_id = refl

  bearer_request-has_client_id :
      (token path : String) → has_client_id (bearer_request N J settings token path) ≡ false
  unfolding bearer_request lookup text_discrete
  bearer_request-has_client_id token path = refl

  -- A request to the console: below its address, and without the credentials that cloudcli takes in
  -- headers.
  abbrev pub IsConsole : Request → Type 0
  IsConsole r =
      ((x : String) × (r.url ≡ settings.console_base_url <> x)) × (has_client_id r ≡ false)

  auth_request-IsConsole : IsConsole (auth_request N J settings)
  unfolding auth_request
  auth_request-IsConsole = (("/authenticate", refl), auth_request-has_client_id)

  bearer_request-IsConsole :
      (token path : String) → IsConsole (bearer_request N J settings token path)
  unfolding bearer_request
  bearer_request-IsConsole token path = ((path, refl), bearer_request-has_client_id token path)

  -- What was sent from one state to another: so many requests at most, all of them to the console.
  pub record Asks (most : ℕ) (s s' : State O) : Type 0 where
    pub new : List Request
    pub split : s'.sent ≡ new ++ s.sent
    pub few : length new ≤ most
    pub addressed : All IsConsole new

  pub Asks-none : (s s' : State O) → s'.sent ≡ s.sent → Asks 0 s s'
  Asks-none s s' e = record { new = []; split = e; few = omega arith; addressed = tt }

  pub Asks-trans : {m n : ℕ} {s t u : State O} → Asks m s t → Asks n t u → Asks (m + n) s u
  Asks-trans {s = s} a b = record {
    new = b.new ++ a.new;
    split = b.split ∙ (ap (λ l. b.new ++ l) a.split ∙ sym (append_assoc b.new a.new s.sent));
    few = omega (arith, a.few, b.few, length-append b.new a.new);
    addressed = All-append IsConsole b.new a.new b.addressed a.addressed;
  }

  pub Asks-more : {m n : ℕ} {s t : State O} → m ≤ n → Asks m s t → Asks n s t
  Asks-more h a = record {
    new = a.new;
    split = a.split;
    few = omega (arith, h, a.few);
    addressed = a.addressed;
  }

  console-quiet :
      (new old : List Request)
      → All IsConsole new
      → count_if has_client_id (new ++ old) ≡ count_if has_client_id old
  console-quiet [] old h = refl
  console-quiet (r ∷ new) old ((_, quiet), h) = ground (arith, quiet, console-quiet new old h)

  pub Asks-quiet : {m : ℕ} {s t : State O} → Asks m s t → with_client_id t ≡ with_client_id s
  Asks-quiet {s = s} a =
      ap (count_if has_client_id) a.split ∙ console-quiet a.new s.sent a.addressed

  -- One request at most.
  abbrev pub Sent : Request → State O → State O → Type 0
  Sent req s s' = (s'.sent ≡ s.sent) ⊎ (s'.sent ≡ req ∷ s.sent)

  Sent-Asks : (req : Request) (s s' : State O) → IsConsole req → Sent req s s' → Asks 1 s s'
  Sent-Asks req s s' h (inl e) = Asks-more (omega arith) (Asks-none s s' e)
  Sent-Asks req s s' h (inr e) = record {
    new = req ∷ [];
    split = e;
    few = omega arith;
    addressed = (h, tt);
  }

  accept_token-sent :
      (resp : Response) (s : State O) → (accept_token N J settings resp s).1.sent ≡ s.sent
  unfolding accept_token
  accept_token-sent resp s = ground arith

  authenticate-Sent :
      (s : State O) → Sent (auth_request N J settings) s (authenticate N J settings s).1
  unfolding authenticate send
  authenticate-Sent s = elim (Option-cases (N.build (auth_request N J settings))) [
    | inr (e, q) ↦ ground arith
    | inl fine ↦
        let (r, s1) = send N (auth_request N J settings) s in
        elim (Result-cases r) [
          | inl (resp, q) ↦ ground (arith, accept_token-sent resp s1)
          | inr (e, q) ↦ ground arith
        ]
  ]

  pub ensure_token-Sent :
      (s : State O) → Sent (auth_request N J settings) s (ensure_token N J settings s).1
  unfolding ensure_token now
  ensure_token-Sent s = ground (arith, authenticate-Sent s, authenticate-Sent (now N s).1)

  pub ensure_token-Asks : (s : State O) → Asks 1 s (ensure_token N J settings s).1
  ensure_token-Asks s =
      Sent-Asks (auth_request N J settings) s (ensure_token N J settings s).1 auth_request-IsConsole
        (ensure_token-Sent s)

  pub bearer_get_with-Sent :
      (token path : String) (s : State O)
      → Sent
          (bearer_request N J settings token path)
          s
          (bearer_get_with N J settings token path s).1
  unfolding bearer_get_with send
  bearer_get_with-Sent token path s = ground arith

  pub bearer_get_with-Asks :
      (token path : String) (s : State O) → Asks 1 s (bearer_get_with N J settings token path s).1
  bearer_get_with-Asks token path s =
      Sent-Asks (bearer_request N J settings token path) s
        (bearer_get_with N J settings token path s).1 (bearer_request-IsConsole token path)
        (bearer_get_with-Sent token path s)

  bearer_get_once-Asks :
      (path : String) (s : State O) → Asks 1 s (bearer_get_once N J settings path s).1
  unfolding bearer_get_once
  bearer_get_once-Asks path s = bearer_get_with-Asks s.token path s

  bearer_get_again-Asks :
      (path : String) (s : State O) → Asks 2 s (bearer_get_again N J settings path s).1
  unfolding bearer_get_again
  bearer_get_again-Asks path s =
      let wiped : State O = record s { token = "" } in
      let (fresh, s1) = ensure_token N J settings wiped in
      let renewed = Asks-trans (Asks-none s wiped refl) (ensure_token-Asks wiped) in
      elim (Result-cases fresh) [
        | inr (e, q) ↦ rw (q, bearer_get_again) (Asks-more (omega arith) renewed)
        | inl (u, q) ↦ rw (q, bearer_get_again) (Asks-trans renewed (bearer_get_once-Asks path s1))
      ]

  -- A query sends four requests at most, all of them to the console.
  pub bearer_get-Asks : (path : String) (s : State O) → Asks 4 s (bearer_get N J settings path s).1
  unfolding bearer_get
  bearer_get-Asks path s =
      let (ready, s1) = ensure_token N J settings s in
      let first = ensure_token-Asks s in
      let (r, s2) = bearer_get_once N J settings path s1 in
      let second = Asks-trans first (bearer_get_once-Asks path s1) in
      elim (Result-cases ready) [
        | inr (e, q) ↦ rw (q, bearer_get) (Asks-more (omega arith) first)
        | inl (u, q) ↦ elim (Result-cases r) [
          | inl (body, b) ↦ rw (q, b, bearer_get) (Asks-more (omega arith) second)
          | inr (e, b) ↦ elim (Bool-cases (is_unauthorized e)) [
            | inl refused ↦
                rw (q, b, refused, bearer_get)
                  (Asks-more (omega arith) (Asks-trans second (bearer_get_again-Asks path s2)))
            | inr other ↦ rw (q, b, other, bearer_get) (Asks-more (omega arith) second)
          ]
        ]
      ]

  pub list_servers-Asks : (s : State O) → Asks 4 s (list_servers N J settings s).1
  unfolding list_servers
  list_servers-Asks s = bearer_get-Asks "/servers" s

  accept_token_set :
      (resp : Response) (s s' : State O)
      → accept_token N J settings resp s ≡ (ok tt, s')
      → s'.token ≢ ""
  unfolding accept_token
  accept_token_set resp s s' h = ground arith

  authenticate_set : (s s' : State O) → authenticate N J settings s ≡ (ok tt, s') → s'.token ≢ ""
  unfolding authenticate
  authenticate_set s s' h = elim (Option-cases (N.build (auth_request N J settings))) [
    | inr (e, q) ↦ ground arith
    | inl fine ↦
        let (r, s1) = send N (auth_request N J settings) s in
        elim (Result-cases r) [
          | inl (resp, q) ↦ accept_token_set resp s1 s' (ground arith)
          | inr (e, q) ↦ ground arith
        ]
  ]

  authenticate_sent :
      (s s' : State O)
      → authenticate N J settings s ≡ (ok tt, s')
      → s'.sent ≡ auth_request N J settings ∷ s.sent
  unfolding authenticate send accept_token
  authenticate_sent s s' h = elim (Option-cases (N.build (auth_request N J settings))) [
    | inr (e, q) ↦ ground arith
    | inl fine ↦ elim (Result-cases (send N (auth_request N J settings) s).0) [
      | inl (resp, q) ↦ ground arith
      | inr (e, q) ↦ ground arith
    ]
  ]

  -- After `ensureToken` succeeded there is a token that is not empty. Either it is the one from
  -- before, more than 30 seconds from its expiry, and nothing was sent, or it is the answer to one
  -- authentication.
  pub ensure_token_fresh :
      (s s' : State O)
      → ensure_token N J settings s ≡ (ok tt, s')
      → (s'.token ≢ "")
        × (((s'.token ≡ s.token)
              × (s'.sent ≡ s.sent)
              × ((now N s).0 +ℤ pos 30000000000 <ℤ s.expires_at))
            ⊎ (s'.sent ≡ auth_request N J settings ∷ s.sent))
  unfolding ensure_token now
  ensure_token_fresh s s' h =
      let (t, s1) = now N s in
      elim (Bool-cases (s.token == "")) [
        | inl missing ↦
            (ground (arith, authenticate_set s s'), inr (ground (arith, authenticate_sent s s')))
        | inr there ↦ elim (Bool-cases (ltb_ℤ (t +ℤ pos 30000000000) s.expires_at)) [
          | inl fresh ↦ (
            ground arith,
            inl (ground arith, ground arith, ltb_ℤ→lt (t +ℤ pos 30000000000) s.expires_at fresh),
          )
          | inr stale ↦ (
            ground (arith, authenticate_set s1 s'),
            inr (ground (arith, authenticate_sent s1 s')),
          )
        ]
      ]
