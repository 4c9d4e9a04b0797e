-- ===== src/Kamatera/Console/Retry.antt =====
-- When `bearerGet` (internal/kamatera/console_client.go) asks a second time, by the requests that it
-- sends.
use kamatera_autoscaler.Base.{
  ℕ, Bool, false, ◌&&◌, eqb, String, ◌==◌, ◌∷◌, count_if, none, some, Result, ok, err, ◌≡◌, ◌≢◌,
  ◌⊎◌,
}
use kamatera_autoscaler.Kamatera.Errors.{Error, as_api_error}
use kamatera_autoscaler.Kamatera.Http.{Request, Response, Network, Settings, State, send}
use kamatera_autoscaler.Kamatera.Console.{Codec, auth_request, bearer_request}

abbrev pub is_get : Request → Bool
is_get r = r.method == "GET"

-- The error is a 401 to the query itself, not to its authentication.
abbrev pub is_refusal : Error → Bool
is_refusal e = elim (as_api_error e) [
  | none ↦ false
  | some a ↦ eqb a.code 401 && (a.method == "GET")
]

abbrev pub is_refused : {A : Type 0} → Result Error A → Bool
is_refused r = elim r [ ok body ↦ false | err e ↦ is_refusal e ]

module _ {O : Type 0} (N : Network O) (J : Codec) (settings : Settings) where
  abbrev pub gets : State O → ℕ
  gets s = count_if is_get s.sent

  -- The requests of a query that was refused and asked again: the two requests of the query with nothing
  -- but an authentication between them, behind an authentication at most, and a 401 to the first.
  pub record AsksTwice (path : String) (s s' : State O) : Type 0 where
    pub first_token : String
    pub second_token : String
    pub asked_at : State O
    pub refusal : Response
    pub before : (asked_at.sent ≡ s.sent) ⊎ (asked_at.sent ≡ auth_request N J settings ∷ s.sent)
    pub sent :
        s'.sent
        ≡ bearer_request N J settings second_token path
          ∷ auth_request N J settings
          ∷ bearer_request N J settings first_token path
          ∷ asked_at.sent
    pub refused :
        (N.send (bearer_request N J settings first_token path) asked_at.outside).0 ≡ ok refusal
    pub unauthorized : refusal.code ≡ 401
    pub renewed : second_token ≢ ""
