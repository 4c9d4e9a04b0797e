-- ===== src/Kamatera/Redact.antt =====
-- `redactErr` and `truncate` of internal/kamatera/client.go, over the characters of a text.
use Prim.Native.Char.{code}
use Prim.Native.String.{len, slice, count}
use kamatera_autoscaler.Base.{
  ℕ, zero, suc, ◌-◌, leb, eqb, Bool, String, ◌<>◌, Option, none, some, is_some, if◌then◌else◌, List,
  [], ◌∷◌, ◌||◌, ◌≡◌, refl,
}

-- What follows a prefix of a text.
unfoldable pub strip_prefix : String → String → Option String
strip_prefix String.[] s = some s
strip_prefix (String.◌∷◌ p ps) String.[] = none
strip_prefix (String.◌∷◌ p ps) (String.◌∷◌ c s) =
    let rest = strip_prefix ps s in if eqb (code p) (code c) then rest else none

-- `strings.ReplaceAll`, with the characters of a match that are still to be passed over. The texts
-- that the program looks for are not empty.
unfoldable pub replace_from : ℕ → String → String → String → String
replace_from skip old new String.[] = String.[]
replace_from (suc skip) old new (String.◌∷◌ c s) = replace_from skip old new s
replace_from zero old new (String.◌∷◌ c s) =
    let hit = replace_from (count old - 1) old new s in
    let miss = replace_from 0 old new s in
    if is_some (strip_prefix old (String.◌∷◌ c s)) then new <> hit else String.◌∷◌ c miss

unfoldable pub contains : String → String → Bool
contains String.[] part = is_some (strip_prefix part String.[])
contains (String.◌∷◌ c s) part = is_some (strip_prefix part (String.◌∷◌ c s)) || contains s part

-- The loop of `redactErr` over the names of the headers.
unfoldable pub redact : List String → String → String
unfolding replace_from contains strip_prefix
redact [] s = s
redact (h ∷ hs) s =
    redact hs
      (if contains s (h <> ":") then replace_from 0 (h <> ":") (h <> ":<redacted>") s else s)

unfoldable pub redact_err : String → String
unfolding redact
redact_err s = redact ("AuthClientId" ∷ "AuthSecret" ∷ []) s

-- `len` and `slice` count bytes, as in Go.
unfoldable pub truncate : String → ℕ → String
truncate s n = if leb (len s) n then s else slice s 0 n <> "..."

redact_example : redact_err "AuthSecret: abc" ≡ "AuthSecret:<redacted> abc"
unfolding redact_err
redact_example = refl
