-- ===== src/Base/Decimal.antt =====
-- The texts that `fmt` prints for integers, and `hex.EncodeToString` for bytes.
use kamatera_autoscaler.Base.Tests.{ltb, if◌then◌else◌}
use kamatera_autoscaler.Base.Ints.{ℤ, pos, negsuc}
use Prim.Native.Nat.{ℕ, zero, suc, ◌/◌, ◌%◌}
use Prim.Native.String.{String, ◌++◌ as ◌<>◌}
use mathlib.Core.List.{List, [], ◌∷◌}

nth_text : List String → ℕ → String
nth_text [] n = ""
nth_text (t ∷ ts) zero = t
nth_text (t ∷ ts) (suc n) = nth_text ts n

-- The digit of a value below 16.
unfoldable pub digit : ℕ → String
unfolding nth_text
digit = nth_text (
    "0" ∷ "1" ∷ "2" ∷ "3" ∷ "4" ∷ "5" ∷ "6" ∷ "7" ∷ "8" ∷ "9" ∷ "a" ∷ "b" ∷ "c" ∷ "d" ∷ "e" ∷ "f"
    ∷ [])

-- The fuel exceeds the number, which falls with every digit.
decimal_from : ℕ → ℕ → String
decimal_from zero n = ""
decimal_from (suc fuel) n =
    let rest = decimal_from fuel (n / 10) in if ltb n 10 then digit n else rest <> digit (n % 10)

unfoldable pub decimal : ℤ → String
unfolding decimal_from digit
decimal (pos n) = decimal_from (suc n) n
decimal (negsuc n) = "-" <> decimal_from (suc (suc n)) (suc n)

unfoldable pub hex_byte : ℕ → String
unfolding digit
hex_byte b = digit (b / 16) <> digit (b % 16)
