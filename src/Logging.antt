-- ===== src/Logging.antt =====
-- internal/logging/logging.go: the level of the log, and the attributes that are printed redacted. The
-- handler of log/slog is not part of the model.
pub mod Laws
use kamatera_autoscaler.Base.{
  ℕ, Bool, true, false, ◌&&◌, ◌||◌, leb, eqb, if◌then◌else◌, String, List, [], ◌∷◌, map, any,
}
use kamatera_autoscaler.Base.Codes.{codes, lower_code, fold_code, same_codes}
use mathlib.Core.List.{reverse}

pub data Level : Type 0 where
  debug info warn error : Level

-- `unicode.IsSpace`
abbrev is_space : ℕ → Bool
is_space c =
    (leb 9 c && leb c 13)
    || any (eqb c) (0x20 ∷ 0x85 ∷ 0xA0 ∷ 0x1680 ∷ 0x2028 ∷ 0x2029 ∷ 0x202F ∷ 0x205F ∷ 0x3000 ∷ [])
    || (leb 0x2000 c && leb c 0x200A)

abbrev trim_left : List ℕ → List ℕ
trim_left [] = []
trim_left (c ∷ cs) = if is_space c then trim_left cs else c ∷ cs

-- `strings.TrimSpace`
abbrev trim_space : List ℕ → List ℕ
trim_space cs = reverse (trim_left (reverse (trim_left cs)))

unfoldable pub parse_level : String → Level
parse_level s =
    let low = map lower_code (trim_space (codes s)) in
    if same_codes low (codes "debug")
    then debug
    else if same_codes low (codes "warn") || same_codes low (codes "warning")
    then warn
    else if same_codes low (codes "error") || same_codes low (codes "err")
    then error
    else info

-- The alternatives of `secretKeyRE`.
abbrev pub secret_words : List String
secret_words =
    "secret" ∷ "token" ∷ "password" ∷ "authclient" ∷ "authsecret" ∷ "sshkey" ∷ "api_secret"
    ∷ "api_key" ∷ []

unfoldable pub starts : List ℕ → List ℕ → Bool
starts [] cs = true
starts (w ∷ ws) [] = false
starts (w ∷ ws) (c ∷ cs) = eqb w c && starts ws cs

-- A match somewhere in the text.
unfoldable pub occurs : List ℕ → List ℕ → Bool
unfolding starts
occurs ws [] = starts ws []
occurs ws (c ∷ cs) = starts ws (c ∷ cs) || occurs ws cs

-- `secretKeyRE.MatchString`
unfoldable pub is_secret_key : String → Bool
unfolding occurs
is_secret_key k = any (λ w. occurs (codes w) (map fold_code (codes k))) secret_words

-- An attribute with the value as it is printed.
pub record Attr : Type 0 where
  pub key : String
  pub value : String

-- `ReplaceAttr`
unfoldable pub replace_attr : Attr → Attr
unfolding is_secret_key
replace_attr a = if is_secret_key a.key then record a { value = "<redacted>" } else a
