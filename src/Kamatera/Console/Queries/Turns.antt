-- ===== src/Kamatera/Console/Queries/Turns.antt =====
-- The turns that a query of the console client takes (internal/kamatera/console_client.go), whatever
-- the queries beside it do.
use mathlib.Core.Option.{some-injective}
use kamatera_autoscaler.Base.{
  ap, ◌∙◌, ℕ, zero, suc, ◌-◌, ◌≤◌, Bool, true, false, eqb, String, List, [], ◌∷◌, count_if, Option,
  none, some, Result, ok, err, ◌≡◌, refl, inl, inr, arith, Bool-cases,
}
use kamatera_autoscaler.Kamatera.Errors.{Error}
use kamatera_autoscaler.Kamatera.Http.{Network, Settings, State}
use kamatera_autoscaler.Kamatera.Console.{Codec, bearer_get_with}
use kamatera_autoscaler.Kamatera.Console.Queries.{
  Place, Query, ensures, reads, asks, wipes, ends, next_place, move, move_at, play,
}

-- The turns that a query has before it, at most.
abbrev rank : Place → ℕ
rank (ensures false) = 7
rank (reads false) = 6
rank (asks false token) = 5
rank wipes = 4
rank (ensures true) = 3
rank (reads true) = 2
rank (asks true token) = 1
rank (ends r) = 0

-- The query at a position.
abbrev pub query_at : ℕ → List Query → Option Query
query_at i [] = none
query_at zero (q ∷ qs) = some q
query_at (suc i) (q ∷ qs) = query_at i qs

-- The turns that a schedule gives to a position.
abbrev pub turns_of : ℕ → List ℕ → ℕ
turns_of i schedule = count_if (eqb i) schedule

next_place-rank : (again : Bool) (r : Result Error String) → rank (next_place again r) ≤ 4
unfolding next_place
next_place-rank again (ok body) = omega arith
next_place-rank true (err e) = omega arith
next_place-rank false (err e) = ground arith

second_over : (r : Result Error String) → rank (next_place true r) ≡ 0
unfolding next_place
second_over (ok body) = omega arith
second_over (err e) = omega arith

rank_over : (place : Place) → rank place ≡ 0 → (r : Result Error String) × (place ≡ ends r)
rank_over (ends r) h = (r, refl)
rank_over (ensures false) h = ground arith
rank_over (ensures true) h = ground arith
rank_over (reads false) h = ground arith
rank_over (reads true) h = ground arith
rank_over (asks false token) h = ground arith
rank_over (asks true token) h = ground arith
rank_over wipes h = ground arith

rank_most : (place : Place) → rank place ≤ 7
rank_most (ensures false) = omega arith
rank_most (ensures true) = omega arith
rank_most (reads false) = omega arith
rank_most (reads true) = omega arith
rank_most (asks false token) = omega arith
rank_most (asks true token) = omega arith
rank_most wipes = omega arith
rank_most (ends r) = omega arith

module _ {O : Type 0} (N : Network O) (J : Codec) (settings : Settings) where
  move-rank :
      (path : String) (place : Place) (s : State O)
      → rank (move N J settings path place s).0 ≤ rank place - 1
  unfolding move
  move-rank path (ensures false) s = ground arith
  move-rank path (ensures true) s = ground arith
  move-rank path (reads false) s = omega arith
  move-rank path (reads true) s = omega arith
  move-rank path (asks false token) s =
      next_place-rank false (bearer_get_with N J settings token path s).0
  move-rank path (asks true token) s =
      ground (arith, second_over (bearer_get_with N J settings token path s).0)
  move-rank path wipes s = omega arith
  move-rank path (ends r) s = omega arith

  query_at-move_at :
      (i j : ℕ) (path : String) (place : Place) (qs : List Query) (s : State O)
      → eqb i j ≡ true
      → query_at i qs ≡ some (path, place)
      → query_at i (move_at N J settings j qs s).0 ≡ some (path, (move N J settings path place s).0)
  unfolding move_at
  query_at-move_at i j path place [] s same h = ground arith
  query_at-move_at zero zero path place (q ∷ qs) s same h =
      ap (λ (path, place). some (path, (move N J settings path place s).0))
        (some-injective q (path, place) h)
  query_at-move_at zero (suc j) path place (q ∷ qs) s same h = ground arith
  query_at-move_at (suc i) zero path place (q ∷ qs) s same h = ground arith
  query_at-move_at (suc i) (suc j) path place (q ∷ qs) s same h =
      query_at-move_at i j path place qs s (ground arith) h

  query_at-move_at-other :
      (i j : ℕ) (qs : List Query) (s : State O)
      → eqb i j ≡ false
      → query_at i (move_at N J settings j qs s).0 ≡ query_at i qs
  unfolding move_at
  query_at-move_at-other i j [] s h = refl
  query_at-move_at-other zero zero (q ∷ qs) s h = ground arith
  query_at-move_at-other zero (suc j) (q ∷ qs) s h = refl
  query_at-move_at-other (suc i) zero (q ∷ qs) s h = refl
  query_at-move_at-other (suc i) (suc j) (q ∷ qs) s h =
      query_at-move_at-other i j qs s (ground arith)

  play_nearer :
      (i : ℕ) (schedule : List ℕ) (path : String) (place : Place) (qs : List Query) (s : State O)
      → query_at i qs ≡ some (path, place)
      → (next : Place) × (query_at i (play N J settings schedule qs s).0 ≡ some (path, next))
        × (rank next ≤ rank place - turns_of i schedule)
  unfolding play
  play_nearer i [] path place qs s h = (place, h, omega arith)
  play_nearer i (j ∷ schedule) path place qs s h =
      let (qs', s') = move_at N J settings j qs s in
      elim (Bool-cases (eqb i j)) [
        | inl same ↦
            let moved = (move N J settings path place s).0 in
            let (next, e, near) =
              play_nearer i schedule path moved qs' s'
                (query_at-move_at i j path place qs s same h) in
            (next, e, ground (arith, move-rank path place s))
        | inr other ↦
            let (next, e, near) =
              play_nearer i schedule path place qs' s'
                (query_at-move_at-other i j qs s other ∙ h) in
            (next, e, ground arith)
      ]

  -- Whatever queries share the client, and in whatever order they take their turns, a query that has
  -- had seven turns has its result.
  pub play-ends :
      (i : ℕ) (schedule : List ℕ) (path : String) (place : Place) (qs : List Query) (s : State O)
      → query_at i qs ≡ some (path, place)
      → 7 ≤ turns_of i schedule
      → (r : Result Error String) × (query_at i (play N J settings schedule qs s).0
          ≡ some (path, ends r))
  play-ends i schedule path place qs s h enough =
      let (next, e, near) = play_nearer i schedule path place qs s h in
      let (r, over) = rank_over next (ground (arith, rank_most place)) in
      (r, e ∙ ap (λ p. some (path, p)) over)
