-- ===== src/Controller/Pending/Live.antt =====
-- How many entries of the tracker (internal/controller/pending.go) are alive at a time, and that
-- collecting the others early changes no later count.
use kamatera_autoscaler.Base.{
  ℕ, ◌+◌, Bool, ℤ, -ℤ_parts, ◌≤ℤ◌, true, not, ◌&&◌, if◌then◌else◌, String, ◌==◌, [], ◌∷◌, count_if,
  Option, none, some, ◌≡◌, refl, arith,
}
use kamatera_autoscaler.Base.Dict.{Dict, lookup, insert, erase, NodupKeys}
use kamatera_autoscaler.Controller.Pending.{Entry, is_expired, live_entries}
use kamatera_autoscaler.Controller.Pending.Laws.{while_live}

abbrev pub is_counted : String → ℤ → ℤ → Entry → Bool
is_counted pool ttl now e = (e.pool == pool) && not (is_expired ttl now e)

unfoldable pub live_count : String → ℤ → ℤ → Dict Entry → ℕ
live_count pool ttl now = count_if (λ (_, e). is_counted pool ttl now e)

-- What an entry, if there is one, adds to the count.
abbrev pub share : String → ℤ → ℤ → Option Entry → ℕ
share pool ttl now none = 0
share pool ttl now (some e) = if is_counted pool ttl now e then 1 else 0

pub live_count-insert :
    (pool k : String) (ttl now : ℤ) (e : Entry) (m : Dict Entry)
    → live_count pool ttl now (insert k e m) + share pool ttl now (lookup k m)
      ≡ share pool ttl now (some e) + live_count pool ttl now m
unfolding live_count insert lookup
live_count-insert pool k ttl now e [] = ground arith
live_count-insert pool k ttl now e ((j, w) ∷ m) =
    ground (arith, live_count-insert pool k ttl now e m)

live_count-erase_missing :
    (pool k : String) (ttl now : ℤ) (m : Dict Entry)
    → lookup k m ≡ none
    → live_count pool ttl now (erase k m) ≡ live_count pool ttl now m
unfolding live_count erase lookup
live_count-erase_missing pool k ttl now [] h = refl
live_count-erase_missing pool k ttl now ((j, w) ∷ m) h =
    ground (arith, live_count-erase_missing pool k ttl now m)

pub live_count-erase :
    (pool k : String) (ttl now : ℤ) (m : Dict Entry)
    → NodupKeys m
    → live_count pool ttl now (erase k m) + share pool ttl now (lookup k m)
      ≡ live_count pool ttl now m
unfolding live_count erase lookup
live_count-erase pool k ttl now [] u = refl
live_count-erase pool k ttl now ((j, w) ∷ m) (fresh, u) =
    ground (arith, live_count-erase pool k ttl now m u, live_count-erase_missing pool k ttl now m)

-- An entry that has expired stays so.
pub is_expired-later :
    (ttl before now : ℤ) (e : Entry)
    → before ≤ℤ now
    → is_expired ttl before e ≡ true
    → is_expired ttl now e ≡ true
is_expired-later ttl before now e h x =
    ground (arith, -ℤ_parts before e.created_at, -ℤ_parts now e.created_at)

pub while_live-later :
    (ttl before now : ℤ) (o : Option Entry)
    → before ≤ℤ now
    → while_live ttl now (while_live ttl before o) ≡ while_live ttl now o
while_live-later ttl before now none h = refl
while_live-later ttl before now (some e) h = ground (arith, is_expired-later ttl before now e h)

pub live_count-live_entries :
    (pool : String) (ttl before now : ℤ) (m : Dict Entry)
    → before ≤ℤ now
    → live_count pool ttl now (live_entries ttl before m) ≡ live_count pool ttl now m
unfolding live_count live_entries
live_count-live_entries pool ttl before now [] h = refl
live_count-live_entries pool ttl before now ((j, e) ∷ m) h =
    ground
      (arith, live_count-live_entries pool ttl before now m h, is_expired-later ttl before now e h)

-- The share of an entry is that of the entry while it is alive.
pub share-while_live :
    (pool : String) (ttl now : ℤ) (o : Option Entry)
    → share pool ttl now (while_live ttl now o) ≡ share pool ttl now o
share-while_live pool ttl now none = refl
share-while_live pool ttl now (some e) = ground arith
