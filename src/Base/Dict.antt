-- ===== src/Base/Dict.antt =====
-- Go maps with string keys, as association lists in order of first insertion. What the program may
-- see of the order in which `range` visits a map is left to an argument of the callers.
use kamatera_autoscaler.Base.Tests.{if◌then◌else◌}
use kamatera_autoscaler.Base.Texts.{◌==◌}
use Prim.Native.Nat.{ℕ, suc}
use Prim.Native.String.{String}
use mathlib.Core.Path.{◌≡◌, refl}
use mathlib.Core.Option.{Option, none, some, get_or}
use mathlib.Core.List.{List, [], ◌∷◌}
use native.Mathlib.Omega.{arith}

abbrev pub Dict {ℓ} : Type ℓ → Type ℓ
Dict V = List (String × V)

module _ {ℓ} {V : Type ℓ} where
  -- `v, ok := m[k]`
  unfoldable pub lookup : String → Dict V → Option V
  lookup k [] = none
  lookup k ((j, v) ∷ m) = if j == k then some v else lookup k m

  -- `m[k] = v`
  unfoldable pub insert : String → V → Dict V → Dict V
  insert k v [] = (k, v) ∷ []
  insert k v ((j, w) ∷ m) = if j == k then (k, v) ∷ m else (j, w) ∷ insert k v m

  -- `delete(m, k)`
  unfoldable pub erase : String → Dict V → Dict V
  erase k [] = []
  erase k ((j, w) ∷ m) = let rest = erase k m in if j == k then rest else (j, w) ∷ rest

  pub lookup-insert :
      (k j : String) (v : V) (m : Dict V)
      → lookup j (insert k v m) ≡ (if k == j then some v else lookup j m)
  unfolding lookup insert
  lookup-insert k j v [] = ground arith
  lookup-insert k j v ((i, w) ∷ m) = ground (arith, lookup-insert k j v m)

  pub lookup-erase :
      (k j : String) (m : Dict V) → lookup j (erase k m) ≡ (if k == j then none else lookup j m)
  unfolding lookup erase
  lookup-erase k j [] = ground arith
  lookup-erase k j ((i, w) ∷ m) = ground (arith, lookup-erase k j m)

  -- A new key that is deleted again leaves the map as it was.
  erase_missing : (k : String) (m : Dict V) → lookup k m ≡ none → erase k m ≡ m
  unfolding lookup erase
  erase_missing k [] h = refl
  erase_missing k ((j, w) ∷ m) h = ground (arith, erase_missing k m)

  pub erase-insert :
      (k : String) (v : V) (m : Dict V) → lookup k m ≡ none → erase k (insert k v m) ≡ m
  unfolding lookup insert erase
  erase-insert k v [] h = ground arith
  erase-insert k v ((j, w) ∷ m) h = ground (arith, erase-insert k v m, erase_missing k m)

  abbrev pub NodupKeys : Dict V → Type ℓ
  NodupKeys [] = Unit
  NodupKeys ((k, _) ∷ m) = (lookup k m ≡ none) × NodupKeys m

  pub insert-NodupKeys : (k : String) (v : V) (m : Dict V) → NodupKeys m → NodupKeys (insert k v m)
  unfolding lookup insert
  insert-NodupKeys k v [] u = (refl, tt)
  insert-NodupKeys k v ((j, w) ∷ m) (fresh, u) =
      ground (arith, insert-NodupKeys k v m u, lookup-insert k j v m)

  pub erase-NodupKeys : (k : String) (m : Dict V) → NodupKeys m → NodupKeys (erase k m)
  unfolding lookup erase
  erase-NodupKeys k [] u = tt
  erase-NodupKeys k ((j, w) ∷ m) (fresh, u) =
      ground (arith, erase-NodupKeys k m u, lookup-erase k j m)

-- `m[k]` of a `map[string]int`: 0 where the key is missing.
abbrev pub get_int : String → Dict ℕ → ℕ
get_int k m = get_or (lookup k m) 0

-- `m[k]++`
unfoldable pub increment : String → Dict ℕ → Dict ℕ
increment k m = insert k (suc (get_int k m)) m

pub get_int-increment :
    (k j : String) (m : Dict ℕ)
    → get_int j (increment k m) ≡ (if k == j then suc (get_int k m) else get_int j m)
unfolding increment
get_int-increment k j m = ground (arith, lookup-insert k j (suc (get_int k m)) m)
