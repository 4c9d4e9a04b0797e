-- ===== src/Base/Codes.antt =====
-- Texts as lists of code points, and Go's changes of case on them. Only the letters whose counterpart
-- is ASCII are changed, since the program compares with ASCII words alone.
use Prim.Native.Nat.{ℕ, ◌+◌}
use Prim.Native.Char.{code}
use Prim.Native.String.{String}
use mathlib.Core.Path.{◌≡◌}
use mathlib.Core.Logic.{◌↔◌}
use mathlib.Core.Bool.{Bool, true, false, ◌&&◌}
use mathlib.Core.List.{List, [], ◌∷◌, map}
use native.Mathlib.Omega.{arith}
use kamatera_autoscaler.Base.Tests.{leb, eqb, if◌then◌else◌}

abbrev pub codes : String → List ℕ
codes String.[] = []
codes (String.◌∷◌ c s) = code c ∷ codes s

abbrev is_upper : ℕ → Bool
is_upper c = leb b'A' c && leb c b'Z'

-- `unicode.ToLower`; the Kelvin sign and the dotted capital I have ASCII counterparts too.
abbrev pub lower_code : ℕ → ℕ
lower_code c =
    if is_upper c then c + 32 else if eqb c 0x212A then b'k' else if eqb c 0x130 then b'i' else c

-- The representative of a letter under `(?i)` of a regular expression: the long s and the Kelvin sign
-- match their ASCII letters.
abbrev pub fold_code : ℕ → ℕ
fold_code c =
    if is_upper c then c + 32 else if eqb c 0x212A then b'k' else if eqb c 0x17F then b's' else c

-- `strings.ToLower`
abbrev pub to_lower : String → List ℕ
to_lower s = map lower_code (codes s)

abbrev pub same_codes : List ℕ → List ℕ → Bool
same_codes [] [] = true
same_codes [] (d ∷ ds) = false
same_codes (c ∷ cs) [] = false
same_codes (c ∷ cs) (d ∷ ds) = eqb c d && same_codes cs ds

pub same_codes_iff : (cs ds : List ℕ) → (same_codes cs ds ≡ true) ↔ (cs ≡ ds)
same_codes_iff [] [] = ground arith
same_codes_iff [] (d ∷ ds) = ground arith
same_codes_iff (c ∷ cs) [] = ground arith
same_codes_iff (c ∷ cs) (d ∷ ds) = ground (arith, same_codes_iff cs ds)
