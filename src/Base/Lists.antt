-- ===== src/Base/Lists.antt =====
-- Lists measured by native numbers, tests over lists, and predicates on all members.
use Prim.Native.Nat.{ℕ, suc, ◌+◌, ◌≤◌}
use mathlib.Core.Path.{◌≡◌, refl, sym, subst}
use mathlib.Core.Logic.{∥∥₁_elim, ◌⊎◌, inl, inr}
use mathlib.Core.Bool.{Bool, true, false, ◌||◌}
use mathlib.Core.List.{List, [], ◌∷◌, ◌++◌, Perm, Permᴰ}
use native.Mathlib.Omega.{arith}
use kamatera_autoscaler.Base.Tests.{if◌then◌else◌}

module _ {ℓ} {A : Type ℓ} where
  abbrev pub length : List A → ℕ
  length [] = 0
  length (x ∷ xs) = suc (length xs)

  abbrev pub any : (A → Bool) → List A → Bool
  any p [] = false
  any p (x ∷ xs) = p x || any p xs

  -- A loop that keeps the members which pass a test.
  abbrev pub keep_if : (A → Bool) → List A → List A
  keep_if p [] = []
  keep_if p (x ∷ xs) = let rest = keep_if p xs in if p x then x ∷ rest else rest

  abbrev pub count_if : (A → Bool) → List A → ℕ
  count_if p [] = 0
  count_if p (x ∷ xs) = if p x then suc (count_if p xs) else count_if p xs

  abbrev pub All {κ} : (A → Type κ) → List A → Type κ
  All P [] = Unit
  All P (x ∷ xs) = P x × All P xs

module _ {ℓ} {A : Type ℓ} where
  pub length-append : (xs ys : List A) → length (xs ++ ys) ≡ length xs + length ys
  length-append [] ys = omega arith
  length-append (x ∷ xs) ys = omega (arith, length-append xs ys)

  pub count_if-append :
      (p : A → Bool) (xs ys : List A) → count_if p (xs ++ ys) ≡ count_if p xs + count_if p ys
  count_if-append p [] ys = omega arith
  count_if-append p (x ∷ xs) ys = ground (arith, count_if-append p xs ys)

  pub count_if-keep_if-le :
      (p q : A → Bool) (xs : List A) → count_if p (keep_if q xs) ≤ count_if p xs
  count_if-keep_if-le p q [] = omega arith
  count_if-keep_if-le p q (x ∷ xs) = ground (arith, count_if-keep_if-le p q xs)

  pub keep_if-All : (p : A → Bool) (xs : List A) → All (λ x. p x ≡ true) (keep_if p xs)
  keep_if-All p [] = tt
  keep_if-All p (x ∷ xs) = ground (arith, keep_if-All p xs)

  pub All-append {κ} : (P : A → Type κ) (xs ys : List A) → All P xs → All P ys → All P (xs ++ ys)
  All-append P [] ys hx hy = hy
  All-append P (x ∷ xs) ys hx hy = (hx.0, All-append P xs ys hx.1 hy)

  pub All-imp {κ ι} :
      {P : A → Type κ} {Q : A → Type ι} (xs : List A) → ((x : A) → P x → Q x) → All P xs → All Q xs
  All-imp [] f h = tt
  All-imp (x ∷ xs) f h = (f x h.0, All-imp xs f h.1)

  pub List-cases : (xs : List A) → (xs ≡ []) ⊎ ((x : A) × (rest : List A) × (xs ≡ x ∷ rest))
  List-cases [] = inl refl
  List-cases (x ∷ xs) = inr (x, xs, refl)

module _ {ℓ κ} {A : Type ℓ} (P : A → Type κ) where
  All-prop : (xs : List A) → ((x : A) → IsProp (P x)) → IsProp (All P xs)
  All-prop [] h = hlevel
  All-prop (x ∷ xs) h = let one = h x in let rest = All-prop xs h in hlevel

  Permᴰ-All : {xs ys : List A} → Permᴰ xs ys → All P ys → All P xs
  Permᴰ-All Permᴰ.nil h = tt
  Permᴰ-All (Permᴰ.cons e d) (one, h) = (subst P (sym e) one, Permᴰ-All d h)
  Permᴰ-All (Permᴰ.swap e f) (one, (two, h)) = (subst P (sym e) two, (subst P (sym f) one, h))
  Permᴰ-All (Permᴰ.trans c d) h = Permᴰ-All c (Permᴰ-All d h)

  -- What holds of all members holds in any order.
  pub Perm-All : (xs ys : List A) → ((x : A) → IsProp (P x)) → Perm xs ys → All P ys → All P xs
  Perm-All xs ys props perm h = ∥∥₁_elim perm (All-prop xs props) (λ d. Permᴰ-All d h)
