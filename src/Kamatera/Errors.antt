-- ===== src/Kamatera/Errors.antt =====
-- internal/kamatera/errors.go. An error is what Go's `errors.As` and `errors.Is` can find in it:
-- they walk down the wrappings of `fmt.Errorf("...: %w", err)`.
use kamatera_autoscaler.Base.{
  ℕ, Bool, true, false, ◌&&◌, leb, ltb, String, Option, none, some, ◌≡◌, arith, ◌↔◌, ◌⊎◌, ◌<◌,
}
use kamatera_autoscaler.Kamatera.Types.{Server}

pub record ApiError : Type 0 where
  pub method : String
  pub path : String
  pub code : ℕ
  pub body : String

pub data Error : Type 0 where
  api : ApiError → Error
  server_not_found : String → Error
  create_recovered : Server → Error
  message : String → Error
  context_error : String → Error
  wrapped : String → Error → Error

-- `(*APIError).Client` and `(*APIError).Server`
abbrev pub client : ApiError → Bool
client e = leb 400 e.code && ltb e.code 500

abbrev pub server : ApiError → Bool
server e = leb 500 e.code

-- `errors.As(err, &se)` at an `*APIError`
unfoldable pub as_api_error : Error → Option ApiError
as_api_error (api e) = some e
as_api_error (server_not_found name) = none
as_api_error (create_recovered s) = none
as_api_error (message text) = none
as_api_error (context_error text) = none
as_api_error (wrapped text e) = as_api_error e

-- `errors.Is(err, ErrServerNotFound)`
unfoldable pub is_server_not_found : Error → Bool
is_server_not_found (api e) = false
is_server_not_found (server_not_found name) = true
is_server_not_found (create_recovered s) = false
is_server_not_found (message text) = false
is_server_not_found (context_error text) = false
is_server_not_found (wrapped text e) = is_server_not_found e

-- `errors.As(err, &rec)` at an `*ErrCreateRecovered`
unfoldable pub as_recovered : Error → Option Server
as_recovered (api e) = none
as_recovered (server_not_found name) = none
as_recovered (create_recovered s) = some s
as_recovered (message text) = none
as_recovered (context_error text) = none
as_recovered (wrapped text e) = as_recovered e

-- The three questions take Go's `error`, which may be nil.
unfoldable pub is_client_error : Option Error → Bool
is_client_error none = false
is_client_error (some e) = elim (as_api_error e) [ none ↦ false | some a ↦ client a ]

unfoldable pub is_server_error : Option Error → Bool
is_server_error none = false
is_server_error (some e) = elim (as_api_error e) [ none ↦ false | some a ↦ server a ]

unfoldable pub is_transport_error : Option Error → Bool
is_transport_error none = false
is_transport_error (some e) = elim (as_api_error e) [ none ↦ true | some a ↦ false ]

-- An error is of one kind at most, and of one exactly unless it is an API error below 400.
pub error_kinds :
    (e : Error)
    → (is_client_error (some e) && is_server_error (some e) ≡ false)
      × (is_transport_error (some e) && is_client_error (some e) ≡ false)
      × (is_transport_error (some e) && is_server_error (some e) ≡ false)
      × ((is_transport_error (some e) ≡ false) ↔ (
          (is_client_error (some e) ≡ true)
          ⊎ ((is_server_error (some e) ≡ true)
              ⊎ ((a : ApiError) × (as_api_error e ≡ some a) × (a.code < 400)))))
unfolding is_client_error is_server_error is_transport_error
error_kinds e = ground arith
