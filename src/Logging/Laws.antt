-- ===== src/Logging/Laws.antt =====
-- Which attributes the log (internal/logging/logging.go) redacts.
use kamatera_autoscaler.Base.{
  ℕ, Bool, true, String, ◌==◌, ==_self, ==→eq, List, [], ◌∷◌, ◌++◌, map, any, ◌≡◌, refl, ◌↔◌, ◌⊎◌,
  inl, inr, arith, ap, ◌∙◌, Bool-cases,
}
use mathlib.Core.List.{map-append}
use kamatera_autoscaler.Base.Codes.{codes, fold_code}
use kamatera_autoscaler.Logging.{Attr, secret_words, starts, occurs, is_secret_key, replace_attr}

abbrev StartsWith : List ℕ → List ℕ → Type 0
StartsWith ws cs = (rest : List ℕ) × (cs ≡ ws ++ rest)

starts-StartsWith : (ws cs : List ℕ) → (starts ws cs ≡ true) ↔ StartsWith ws cs
unfolding starts
starts-StartsWith [] cs = (λ h. (cs, refl), λ s. refl)
starts-StartsWith (w ∷ ws) [] = (λ h. ground arith, λ s. cc (s.1))
starts-StartsWith (w ∷ ws) (c ∷ cs) =
    let (to, back) = starts-StartsWith ws cs in
    (
      λ h. let (rest, e) = to (ground arith) in (rest, ground arith),
      λ (rest, e). ground (arith, back (rest, ground arith)),
    )

abbrev HasInside : List ℕ → List ℕ → Type 0
HasInside ws cs = (before : List ℕ) × (after : List ℕ) × (cs ≡ before ++ (ws ++ after))

occurs_found : (ws cs : List ℕ) → occurs ws cs ≡ true → HasInside ws cs
unfolding occurs
occurs_found ws [] h = let (rest, e) = (starts-StartsWith ws []).0 h in ([], rest, e)
occurs_found ws (c ∷ cs) h = elim (Bool-cases (starts ws (c ∷ cs))) [
  | inl here ↦ let (rest, e) = (starts-StartsWith ws (c ∷ cs)).0 here in ([], rest, e)
  | inr not_here ↦
      let (before, after, e) = occurs_found ws cs (ground arith) in
      (c ∷ before, after, ap (λ xs. c ∷ xs) e)
]

occurs-starts : (ws cs : List ℕ) → starts ws cs ≡ true → occurs ws cs ≡ true
unfolding occurs
occurs-starts ws [] h = h
occurs-starts ws (c ∷ cs) h = ground arith

occurs_complete : (ws before after : List ℕ) → occurs ws (before ++ (ws ++ after)) ≡ true
unfolding occurs
occurs_complete ws [] after =
    occurs-starts ws (ws ++ after) ((starts-StartsWith ws (ws ++ after)).1 (after, refl))
occurs_complete ws (b ∷ before) after = ground (arith, occurs_complete ws before after)

-- A list whose image is split is split alike.
map_split :
    (f : ℕ → ℕ) (xs ys zs : List ℕ)
    → map f xs ≡ ys ++ zs
    → (p : List ℕ) × (q : List ℕ) × (xs ≡ p ++ q) × (map f p ≡ ys) × (map f q ≡ zs)
map_split f xs [] zs h = ([], xs, refl, refl, h)
map_split f [] (y ∷ ys) zs h = cc
map_split f (x ∷ xs) (y ∷ ys) zs h =
    let (p, q, e, l, r) = map_split f xs ys zs (ground arith) in
    (x ∷ p, q, ap (λ t. x ∷ t) e, ground arith, r)

-- The key has a part that is one of the secret words, in whatever case.
pub record IsSecret (k : String) : Type 0 where
  pub word : String
  pub listed : any (λ w. w == word) secret_words ≡ true
  pub before : List ℕ
  pub part : List ℕ
  pub after : List ℕ
  pub split : codes k ≡ before ++ (part ++ after)
  pub same : map fold_code part ≡ codes word

any_found :
    (p : String → Bool) (vs : List String)
    → any p vs ≡ true
    → (w : String) × (any (λ v. v == w) vs ≡ true) × (p w ≡ true)
any_found p [] h = cc
any_found p (v ∷ vs) h = elim (Bool-cases (p v)) [
  | inl e ↦ (v, ground (arith, ==_self v), e)
  | inr e ↦ let (w, inside, q) = any_found p vs (ground arith) in (w, ground arith, q)
]

any_holds :
    (p : String → Bool) (vs : List String) (w : String)
    → any (λ v. v == w) vs ≡ true
    → p w ≡ true
    → any p vs ≡ true
any_holds p [] w h q = h
any_holds p (v ∷ vs) w h q = elim (Bool-cases (v == w)) [
  | inl e ↦ let same = ==→eq v w e in ground (arith, same)
  | inr e ↦ ground (arith, any_holds p vs w (ground arith) q)
]

is_secret_key-IsSecret : (k : String) → (is_secret_key k ≡ true) ↔ IsSecret k
unfolding is_secret_key
is_secret_key-IsSecret k =
    let test = λ (w : String). occurs (codes w) (map fold_code (codes k)) in
    (
      λ h.
          let (w, inside, found) = any_found test secret_words h in
          let (before, after, e) = occurs_found (codes w) (map fold_code (codes k)) found in
          let (p, q, split, left, right) =
            map_split fold_code (codes k) before (codes w ++ after) e in
          let (m, r, split2, mid, last) = map_split fold_code q (codes w) after right in
          record {
            word = w;
            listed = inside;
            before = p;
            part = m;
            after = r;
            split = split ∙ ap (λ xs. p ++ xs) split2;
            same = mid;
          },
      λ s. any_holds test secret_words s.word s.listed (
          cc (
            s.split,
            s.same,
            map-append fold_code s.before (s.part ++ s.after),
            map-append fold_code s.part s.after,
            occurs_complete (codes s.word) (map fold_code s.before) (map fold_code s.after),
          )),
    )

-- An attribute is printed as `<redacted>` under its own key exactly if the key has one of the secret
-- words as a part, in whatever case, and as it is otherwise.
pub replace_attr_cases :
    (a : Attr)
    → ((replace_attr a ≡ record a { value = "<redacted>" }) × IsSecret a.key)
      ⊎ ((replace_attr a ≡ a) × (¬ (IsSecret a.key)))
unfolding replace_attr
replace_attr_cases a = elim (Bool-cases (is_secret_key a.key)) [
  | inl e ↦ inl (ground arith, (is_secret_key-IsSecret a.key).0 e)
  | inr e ↦ inr (ground arith, λ s. cc (e, (is_secret_key-IsSecret a.key).1 s))
]
