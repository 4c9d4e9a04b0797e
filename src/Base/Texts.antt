-- ===== src/Base/Texts.antt =====
-- Go strings that the program compares whole, as native texts, with a decision that `ground` splits.
use Prim.Native.String.{String}
use mathlib.Core.Path.{◌≡◌}
use mathlib.Core.Logic.{ite, dite, ◌≢◌}
use mathlib.Core.Bool.{Bool, true, false, Bool-discrete}
use native.Mathlib.Omega.{arith}
use text.Mathlib.Text
use text.Mathlib.TextEquality.{eq_iff}
use kamatera_autoscaler.Base.Tests.{is_some}

unfoldable pub text_discrete : Discrete String
text_discrete s t =
    dite (Bool-discrete (Text.◌==◌ s t) true) (λ same. yes ((eq_iff s t).0 same))
      (λ differ. no (λ p. differ ((eq_iff s t).1 p)))

infix 50 ◌==◌
abbrev pub ◌==◌ : String → String → Bool
a == b = ite (text_discrete a b) true false

pub ==_self : (s : String) → (s == s) ≡ true
==_self s = ground arith

pub ==→eq : (s t : String) → (s == t) ≡ true → s ≡ t
==→eq s t h = ground arith

pub ==→ne : (s t : String) → (s == t) ≡ false → s ≢ t
==→ne s t h = ground arith

-- `strings.Contains(s, part)`
abbrev pub contains_text : String → String → Bool
contains_text s part = is_some (Text.find? s part)
