-- ===== src/Controller/Pending/Laws.antt =====
-- What the tracker of internal/controller/pending.go promises, name by name and pool by pool.
use kamatera_autoscaler.Base.{
  ◌+◌, ◌≤◌, ℤ, true, ◌⊎◌, not, if◌then◌else◌, String, ◌==◌, [], ◌∷◌, count_if, is_some, Option,
  none, some, ◌≡◌, refl, arith, ◌&&◌,
}
use kamatera_autoscaler.Base.Dict.{
  erase, Dict, lookup, insert, lookup-insert, lookup-erase, erase-insert, NodupKeys,
  insert-NodupKeys, erase-NodupKeys,
}
use kamatera_autoscaler.Controller.Pending.{
  Entry, PendingTracker, is_expired, live_entries, add, remove, entries_for, count, gc_locked,
}

-- An entry as it stands at a time: none once it has outlived the limit.
abbrev pub while_live : ℤ → ℤ → Option Entry → Option Entry
while_live ttl now none = none
while_live ttl now (some e) = if is_expired ttl now e then none else some e

pub lookup-live_entries :
    (ttl now : ℤ) (k : String) (m : Dict Entry)
    → NodupKeys m
    → lookup k (live_entries ttl now m) ≡ while_live ttl now (lookup k m)
unfolding lookup live_entries
lookup-live_entries ttl now k [] u = refl
lookup-live_entries ttl now k ((j, e) ∷ m) (fresh, u) =
    ground (arith, lookup-live_entries ttl now k m u)

pub live_entries-NodupKeys :
    (ttl now : ℤ) (m : Dict Entry) → NodupKeys m → NodupKeys (live_entries ttl now m)
unfolding live_entries
live_entries-NodupKeys ttl now [] u = tt
live_entries-NodupKeys ttl now ((j, e) ∷ m) (fresh, u) =
    ground (arith, live_entries-NodupKeys ttl now m u, lookup-live_entries ttl now j m u)

-- What the tracker holds for a name at a time.
pub in_flight : PendingTracker → ℤ → String → Option Entry
in_flight t now k = while_live t.ttl now (lookup k t.entries)

-- `Add` reports whether the name was free of unexpired entries. On success it holds the new entry
-- under the name, on failure the old one; under every other name what was in flight stays.
pub lookup-add :
    (pool name k : String) (gc_now now : ℤ) (t : PendingTracker)
    → NodupKeys t.entries
    → ((add pool name gc_now now t).0 ≡ not (is_some (in_flight t gc_now name)))
      × (lookup k (add pool name gc_now now t).1.entries ≡ (
          if name == k
          then (if is_some (in_flight t gc_now name)
              then in_flight t gc_now name
              else some (record { pool = pool; created_at = now }))
          else in_flight t gc_now k))
unfolding add in_flight
lookup-add pool name k gc_now now t u = ground (
  arith,
  lookup-insert name k (record { pool = pool; created_at = now })
      (live_entries t.ttl gc_now t.entries),
  lookup-live_entries t.ttl gc_now name t.entries u,
  lookup-live_entries t.ttl gc_now k t.entries u,
)

-- An `Add` that succeeds is undone by `Remove`, but for the entries that it found expired.
pub remove-add :
    (pool name : String) (gc_now now : ℤ) (t : PendingTracker)
    → (add pool name gc_now now t).0 ≡ true
    → remove name (add pool name gc_now now t).1 ≡ gc_locked gc_now t
unfolding add remove gc_locked
remove-add pool name gc_now now t h =
    let m = live_entries t.ttl gc_now t.entries in
    ground (arith, erase-insert name (record { pool = pool; created_at = now }) m)

-- `Remove` drops the name and nothing else, so removing twice is removing once.
pub lookup-remove :
    (name k : String) (t : PendingTracker)
    → lookup k (remove name t).entries ≡ (if name == k then none else lookup k t.entries)
unfolding remove
lookup-remove name k t = lookup-erase name k t.entries

-- The entries of a Go map have different keys.
abbrev pub TrackerIsValid : PendingTracker → Type 0
TrackerIsValid t = NodupKeys t.entries

pub add-TrackerIsValid :
    (pool name : String) (gc_now now : ℤ) (t : PendingTracker)
    → TrackerIsValid t
    → TrackerIsValid (add pool name gc_now now t).1
unfolding add
add-TrackerIsValid pool name gc_now now t u = ground (
  arith,
  live_entries-NodupKeys t.ttl gc_now t.entries u,
  insert-NodupKeys name (record { pool = pool; created_at = now })
      (live_entries t.ttl gc_now t.entries),
)

pub remove-TrackerIsValid :
    (name : String) (t : PendingTracker) → TrackerIsValid t → TrackerIsValid (remove name t)
unfolding remove
remove-TrackerIsValid name t u = erase-NodupKeys name t.entries u

pub count-TrackerIsValid :
    (pool : String) (now : ℤ) (t : PendingTracker)
    → TrackerIsValid t
    → TrackerIsValid (count pool now t).1
unfolding count
count-TrackerIsValid pool now t u = live_entries-NodupKeys t.ttl now t.entries u

pub entries_for-live_entries :
    (pool : String) (ttl now : ℤ) (m : Dict Entry)
    → entries_for pool (live_entries ttl now m)
      ≡ count_if (λ (_, e). (e.pool == pool) && not (is_expired ttl now e)) m
unfolding entries_for live_entries
entries_for-live_entries pool ttl now [] = refl
entries_for-live_entries pool ttl now ((j, e) ∷ m) =
    ground (arith, entries_for-live_entries pool ttl now m)

-- `Count` is the number of the pool's entries that have not outlived the limit, and it forgets the
-- others: afterwards every name holds what was in flight.
pub count-live :
    (pool k : String) (now : ℤ) (t : PendingTracker)
    → TrackerIsValid t
    → ((count pool now t).0
        ≡ count_if (λ (_, e). (e.pool == pool) && not (is_expired t.ttl now e)) t.entries)
      × (lookup k (count pool now t).1.entries ≡ in_flight t now k)
unfolding count in_flight
count-live pool k now t u =
    (entries_for-live_entries pool t.ttl now t.entries, lookup-live_entries t.ttl now k t.entries u)

pub entries_for-insert :
    (pool k : String) (e : Entry) (m : Dict Entry)
    → lookup k m ≡ none
    → entries_for pool (insert k e m) ≡ (if e.pool == pool then 1 else 0) + entries_for pool m
unfolding entries_for lookup insert
entries_for-insert pool k e [] h = ground arith
entries_for-insert pool k e ((j, w) ∷ m) h = ground (arith, entries_for-insert pool k e m)

pub entries_for-live_entries-le :
    (pool : String) (ttl now : ℤ) (m : Dict Entry)
    → entries_for pool (live_entries ttl now m) ≤ entries_for pool m
unfolding entries_for live_entries
entries_for-live_entries-le pool ttl now [] = omega arith
entries_for-live_entries-le pool ttl now ((j, e) ∷ m) =
    ground (arith, entries_for-live_entries-le pool ttl now m)

pub entries_for-erase-le :
    (q name : String) (m : Dict Entry) → entries_for q (erase name m) ≤ entries_for q m
unfolding entries_for erase
entries_for-erase-le q name [] = omega arith
entries_for-erase-le q name ((k, e) ∷ m) = ground (arith, entries_for-erase-le q name m)

pub entries_for-count :
    (pool other : String) (now : ℤ) (t : PendingTracker)
    → ((count pool now t).0 ≡ entries_for pool (count pool now t).1.entries)
      × (entries_for other (count pool now t).1.entries ≤ entries_for other t.entries)
unfolding count
entries_for-count pool other now t = (refl, entries_for-live_entries-le other t.ttl now t.entries)

-- An addition that succeeds adds one entry to its pool at most, and none to any other.
pub entries_for-add :
    (pool name other : String) (gc_now now : ℤ) (t : PendingTracker)
    → entries_for other (add pool name gc_now now t).1.entries
      ≤ (if pool == other then 1 else 0) + entries_for other t.entries
unfolding add
entries_for-add pool name other gc_now now t = ground (
  arith,
  entries_for-live_entries-le other t.ttl gc_now t.entries,
  entries_for-insert other name (record { pool = pool; created_at = now })
      (live_entries t.ttl gc_now t.entries),
)

-- A name that the tracker holds after an addition was added by it or held before.
pub add_known :
    (pool name k : String) (gc_now now : ℤ) (t : PendingTracker)
    → TrackerIsValid t
    → is_some (lookup k (add pool name gc_now now t).1.entries) ≡ true
    → ((name ≡ k) × ((add pool name gc_now now t).0 ≡ true)) ⊎ (is_some (lookup k t.entries) ≡ true)
unfolding in_flight
add_known pool name k gc_now now t v h = ground (arith, lookup-add pool name k gc_now now t v)

pub count_known :
    (pool k : String) (now : ℤ) (t : PendingTracker)
    → TrackerIsValid t
    → is_some (lookup k (count pool now t).1.entries) ≡ true
    → is_some (lookup k t.entries) ≡ true
unfolding in_flight
count_known pool k now t v h = ground (arith, count-live pool k now t v)
