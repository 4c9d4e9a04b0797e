-- ===== src/Kamatera/Console/Queries.antt =====
-- `bearerGet` of internal/kamatera/console_client.go where several queries share a client: those of
-- the watcher and of the creations that recover. A turn takes a query to the next point at which it
-- takes or has left the mutex; a request goes out and is answered within one turn. Authentication
-- holds the mutex, so that it is one turn with the test of the token before it.
pub mod Turns
pub mod Requests
pub mod Stale
use kamatera_autoscaler.Base.{
  ℕ, zero, suc, Bool, true, false, if◌then◌else◌, String, List, [], ◌∷◌, Result, ok, err,
}
use kamatera_autoscaler.Kamatera.Errors.{Error}
use kamatera_autoscaler.Kamatera.Http.{Network, Settings, State}
use kamatera_autoscaler.Kamatera.Console.{Codec, is_unauthorized, ensure_token, bearer_get_with}

-- Where a query stands. The flag tells the second attempt, after a 401, from the first.
pub data Place : Type 0 where
  ensures : Bool → Place
  reads : Bool → Place
  asks : Bool → String → Place
  wipes : Place
  ends : Result Error String → Place

-- What an attempt gives: the first goes on to the second when it was refused with 401.
unfoldable pub next_place : Bool → Result Error String → Place
next_place again (ok body) = ends (ok body)
next_place false (err e) = if is_unauthorized e then wipes else ends (err e)
next_place true (err e) = ends (err e)

-- A query, by its path.
abbrev pub Query : Type 0
Query = String × Place

module _ {O : Type 0} (N : Network O) (J : Codec) (settings : Settings) where
  unfoldable pub move : String → Place → State O → Place × State O
  move path (ensures again) s =
      let (ready, s1) = ensure_token N J settings s in
      (elim ready [ err e ↦ ends (err e) | ok _ ↦ reads again ], s1)
  move path (reads again) s = (asks again s.token, s)
  move path (asks again token) s =
      let (r, s1) = bearer_get_with N J settings token path s in (next_place again r, s1)
  move path wipes s = (ensures true, record s { token = "" })
  move path (ends r) s = (ends r, s)

  -- A turn of the query at a position, none where there is no such query.
  unfoldable pub move_at : ℕ → List Query → State O → List Query × State O
  move_at i [] s = ([], s)
  move_at zero ((path, place) ∷ qs) s =
      let (next, s1) = move path place s in ((path, next) ∷ qs, s1)
  move_at (suc i) (q ∷ qs) s = let (rest, s1) = move_at i qs s in (q ∷ rest, s1)

  -- The queries take turns in the order that a schedule lists.
  unfoldable pub play : List ℕ → List Query → State O → List Query × State O
  play [] qs s = (qs, s)
  play (i ∷ schedule) qs s = let (next, s1) = move_at i qs s in play schedule next s1
