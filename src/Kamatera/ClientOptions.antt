-- ===== src/Kamatera/ClientOptions.antt =====
-- `NewClient` and its options (internal/kamatera/client.go), as far as they concern the settings. The
-- HTTP client and the logger, which have options too, are not settings.
use Prim.Native.Char.{Char, code}
use kamatera_autoscaler.Base.{
  ℤ, pos, ◌<ℤ◌, ltb_ℤ, eqb, Bool, true, false, ◌&&◌, if◌then◌else◌, String, List, [], ◌∷◌, ◌≡◌,
  refl, arith, inl, inr, Bool-cases,
}
use kamatera_autoscaler.Config.{Credentials}
use kamatera_autoscaler.Kamatera.Http.{Settings, default_settings}

abbrev is_empty : String → Bool
is_empty String.[] = true
is_empty (String.◌∷◌ c s) = false

-- `strings.TrimRight` at a slash.
unfoldable pub trim_right_slash : String → String
trim_right_slash String.[] = String.[]
trim_right_slash (String.◌∷◌ c s) =
    let rest = trim_right_slash s in
    if is_empty rest && eqb (code c) 47 then String.[] else String.◌∷◌ c rest

pub data ClientOption : Type 0 where
  with_base_url with_console_base_url : String → ClientOption
  with_max_retries with_retry_base_delay with_queue_poll_interval : ℤ → ClientOption
  with_recovery_params : ℤ → ℤ → ℤ → ClientOption

-- A time that is not positive leaves the setting alone.
abbrev when_positive : ℤ → ℤ → ℤ
when_positive d old = if ltb_ℤ (pos 0) d then d else old

unfoldable pub apply : ClientOption → Settings → Settings
apply (with_base_url u) c = record c { base_url = trim_right_slash u }
apply (with_console_base_url u) c = record c { console_base_url = trim_right_slash u }
apply (with_max_retries n) c = record c { max_retries = n }
apply (with_retry_base_delay d) c = record c { retry_base = d }
apply (with_queue_poll_interval d) c = record c { poll_interval = d }
apply (with_recovery_params grace poll_every max_wait) c = record c {
  recovery_grace = when_positive grace c.recovery_grace;
  recovery_poll_every = when_positive poll_every c.recovery_poll_every;
  recovery_max = when_positive max_wait c.recovery_max;
}

unfoldable pub apply_all : List ClientOption → Settings → Settings
apply_all [] c = c
apply_all (o ∷ os) c = apply_all os (apply o c)

-- The settings of the client that `NewClient` makes.
unfoldable pub new_client : Credentials → List ClientOption → Settings
unfolding apply_all apply trim_right_slash
new_client creds opts = apply_all opts (default_settings creds)

pub ends_in_slash : String → Bool
ends_in_slash String.[] = false
ends_in_slash (String.◌∷◌ c String.[]) = eqb (code c) 47
ends_in_slash (String.◌∷◌ c (String.◌∷◌ d s)) = ends_in_slash (String.◌∷◌ d s)

ends_in_slash-cons :
    (c : Char) (t : String)
    → ends_in_slash t ≡ false
    → (is_empty t && eqb (code c) 47) ≡ false
    → ends_in_slash (String.◌∷◌ c t) ≡ false
unfolding ends_in_slash
ends_in_slash-cons c String.[] h e = e
ends_in_slash-cons c (String.◌∷◌ d t) h e = h

ends_in_slash-trim_right_slash : (s : String) → ends_in_slash (trim_right_slash s) ≡ false
unfolding ends_in_slash trim_right_slash
ends_in_slash-trim_right_slash String.[] = refl
ends_in_slash-trim_right_slash (String.◌∷◌ c s) =
    let rest = trim_right_slash s in
    elim (Bool-cases (is_empty rest && eqb (code c) 47)) [
      | inl e ↦ rw e refl
      | inr e ↦ rw e (ends_in_slash-cons c rest (ends_in_slash-trim_right_slash s) e)
    ]

-- The recovery waits and ends, and a path can be put behind the addresses.
pub record IsTuned (c : Settings) : Type 0 where
  pub grace : pos 0 <ℤ c.recovery_grace
  pub poll_every : pos 0 <ℤ c.recovery_poll_every
  pub max_wait : pos 0 <ℤ c.recovery_max
  pub base : ends_in_slash c.base_url ≡ false
  pub console_base : ends_in_slash c.console_base_url ≡ false

apply-IsTuned : (o : ClientOption) (c : Settings) → IsTuned c → IsTuned (apply o c)
unfolding apply
apply-IsTuned (with_base_url u) c t = ground (arith, ends_in_slash-trim_right_slash u)
apply-IsTuned (with_console_base_url u) c t = ground (arith, ends_in_slash-trim_right_slash u)
apply-IsTuned (with_max_retries n) c t = ground arith
apply-IsTuned (with_retry_base_delay d) c t = ground arith
apply-IsTuned (with_queue_poll_interval d) c t = ground arith
apply-IsTuned (with_recovery_params grace poll_every max_wait) c t = ground arith

apply_all-IsTuned : (os : List ClientOption) (c : Settings) → IsTuned c → IsTuned (apply_all os c)
unfolding apply_all
apply_all-IsTuned [] c t = t
apply_all-IsTuned (o ∷ os) c t = apply_all-IsTuned os (apply o c) (apply-IsTuned o c t)

-- Whatever its options, a client has a recovery whose grace, interval and limit are positive, and
-- addresses that do not end in a slash.
pub new_client-IsTuned :
    (creds : Credentials) (opts : List ClientOption) → IsTuned (new_client creds opts)
unfolding new_client ends_in_slash
new_client-IsTuned creds opts = apply_all-IsTuned opts (default_settings creds) (ground arith)
