-- ===== src/Kamatera/Console/Queries/Requests.antt =====
-- The requests of queries that share the console client (internal/kamatera/console_client.go).
use kamatera_autoscaler.Base.{
  ℕ, zero, suc, ◌+◌, ◌*◌, ◌≤◌, Bool, true, false, String, List, [], ◌∷◌, length, Result, ok, err,
  ◌≡◌, arith, refl,
}
use kamatera_autoscaler.Kamatera.Errors.{Error}
use kamatera_autoscaler.Kamatera.Http.{Network, Settings, State}
use kamatera_autoscaler.Kamatera.Console.{Codec, bearer_get_with}
use kamatera_autoscaler.Kamatera.Console.Laws.{
  Asks, Asks-none, Asks-trans, Asks-more, ensure_token-Asks, bearer_get_with-Asks,
}
use kamatera_autoscaler.Kamatera.Console.Queries.{
  Place, Query, ensures, reads, asks, wipes, ends, next_place, move, move_at, play,
}

-- The requests that a query has before it, at most.
abbrev weight : Place → ℕ
weight (ensures false) = 4
weight (reads false) = 3
weight (asks false token) = 3
weight wipes = 2
weight (ensures true) = 2
weight (reads true) = 1
weight (asks true token) = 1
weight (ends r) = 0

abbrev load : List Query → ℕ
load [] = 0
load ((path, place) ∷ qs) = weight place + load qs

weight_most : (place : Place) → weight place ≤ 4
weight_most (ensures false) = omega arith
weight_most (ensures true) = omega arith
weight_most (reads false) = omega arith
weight_most (reads true) = omega arith
weight_most (asks false token) = omega arith
weight_most (asks true token) = omega arith
weight_most wipes = omega arith
weight_most (ends r) = omega arith

load_most : (qs : List Query) → load qs ≤ 4 * length qs
load_most [] = omega arith
load_most ((path, place) ∷ qs) = omega (arith, load_most qs, weight_most place)

next_place-weight : (again : Bool) (r : Result Error String) → weight (next_place again r) ≤ 2
unfolding next_place
next_place-weight again (ok body) = omega arith
next_place-weight true (err e) = omega arith
next_place-weight false (err e) = ground arith

second_done : (r : Result Error String) → weight (next_place true r) ≡ 0
unfolding next_place
second_done (ok body) = omega arith
second_done (err e) = omega arith

module _ {O : Type 0} (N : Network O) (J : Codec) (settings : Settings) where
  -- Requests to the console alone, which leave the rest of what was to come.
  record Spares (before after : ℕ) (s s' : State O) : Type 0 where
    sends : ℕ
    asks_for : Asks N J settings sends s s'
    covered : sends + after ≤ before

  silent :
      (before after : ℕ) (s s' : State O)
      → s'.sent ≡ s.sent
      → after ≤ before
      → Spares before after s s'
  silent before after s s' e h = record {
    sends = 0;
    asks_for = Asks-none N J settings s s' e;
    covered = omega (arith, h);
  }

  move-Spares :
      (path : String) (place : Place) (s : State O)
      → let (next, s1) = move N J settings path place s in Spares (weight place) (weight next) s s1
  unfolding move
  move-Spares path (ensures false) s = record {
    sends = 1;
    asks_for = ensure_token-Asks N J settings s;
    covered = ground arith;
  }
  move-Spares path (ensures true) s = record {
    sends = 1;
    asks_for = ensure_token-Asks N J settings s;
    covered = ground arith;
  }
  move-Spares path (reads false) s = silent 3 3 s s refl (omega arith)
  move-Spares path (reads true) s = silent 1 1 s s refl (omega arith)
  move-Spares path (asks false token) s = record {
    sends = 1;
    asks_for = bearer_get_with-Asks N J settings token path s;
    covered = omega (arith, next_place-weight false (bearer_get_with N J settings token path s).0);
  }
  move-Spares path (asks true token) s = record {
    sends = 1;
    asks_for = bearer_get_with-Asks N J settings token path s;
    covered = omega (arith, second_done (bearer_get_with N J settings token path s).0);
  }
  move-Spares path wipes s = silent 2 2 s (record s { token = "" }) refl (omega arith)
  move-Spares path (ends r) s = silent 0 0 s s refl (omega arith)

  move_at-Spares :
      (i : ℕ) (qs : List Query) (s : State O)
      → let (next, s1) = move_at N J settings i qs s in Spares (load qs) (load next) s s1
  unfolding move_at
  move_at-Spares i [] s = silent 0 0 s s refl (omega arith)
  move_at-Spares zero ((path, place) ∷ qs) s =
      let m = move-Spares path place s in
      record { sends = m.sends; asks_for = m.asks_for; covered = omega (arith, m.covered) }
  move_at-Spares (suc i) (q ∷ qs) s =
      let m = move_at-Spares i qs s in
      record { sends = m.sends; asks_for = m.asks_for; covered = omega (arith, m.covered) }

  play-Spares :
      (schedule : List ℕ) (qs : List Query) (s : State O)
      → let (next, s1) = play N J settings schedule qs s in Spares (load qs) (load next) s s1
  unfolding play
  play-Spares [] qs s = silent (load qs) (load qs) s s refl (omega arith)
  play-Spares (i ∷ schedule) qs s =
      let (next, s1) = move_at N J settings i qs s in
      let m = move_at-Spares i qs s in
      let rest = play-Spares schedule next s1 in
      record {
        sends = m.sends + rest.sends;
        asks_for = Asks-trans N J settings m.asks_for rest.asks_for;
        covered = omega (arith, m.covered, rest.covered);
      }

  -- Queries that share the client, in whatever order they take their turns, send four requests each
  -- at most. All of these go to an address below that of the console, and none has the header with the
  -- client id that cloudcli asks for.
  pub play-Asks :
      (schedule : List ℕ) (qs : List Query) (s : State O)
      → Asks N J settings (4 * length qs) s (play N J settings schedule qs s).1
  play-Asks schedule qs s =
      let m = play-Spares schedule qs s in
      Asks-more N J settings (omega (arith, m.covered, load_most qs)) m.asks_for
