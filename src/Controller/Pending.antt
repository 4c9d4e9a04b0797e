-- ===== src/Controller/Pending.antt =====
-- internal/controller/pending.go: the node creations in flight. The mutex makes every method one
-- step, so a method is a function; each reading of the clock is an argument.
pub mod Laws
pub mod Live
pub mod Calls
use kamatera_autoscaler.Base.{
  ℕ, ℤ, ◌-ℤ◌, ltb_ℤ, Bool, true, false, if◌then◌else◌, String, ◌==◌, [], ◌∷◌, count_if, is_some,
}
use kamatera_autoscaler.Base.Dict.{Dict, lookup, insert, erase}

pub record Entry : Type 0 where
  pub pool : String
  pub created_at : ℤ

-- The entries go by node name.
pub record PendingTracker : Type 0 where
  pub ttl : ℤ
  pub entries : Dict Entry

unfoldable pub new_pending_tracker : ℤ → PendingTracker
new_pending_tracker ttl = record { ttl = ttl; entries = [] }

abbrev pub is_expired : ℤ → ℤ → Entry → Bool
is_expired ttl now e = ltb_ℤ ttl (now -ℤ e.created_at)

-- The loop of `gcLocked`.
unfoldable pub live_entries : ℤ → ℤ → Dict Entry → Dict Entry
live_entries ttl now [] = []
live_entries ttl now ((k, e) ∷ m) =
    let rest = live_entries ttl now m in if is_expired ttl now e then rest else (k, e) ∷ rest

unfoldable pub gc_locked : ℤ → PendingTracker → PendingTracker
gc_locked now t = record t { entries = live_entries t.ttl now t.entries }

-- `Add` reads the clock twice, for the clean-up and for the new entry.
unfoldable pub add : String → String → ℤ → ℤ → PendingTracker → Bool × PendingTracker
unfolding gc_locked
add pool node_name gc_now now t =
    let u = gc_locked gc_now t in
    if is_some (lookup node_name u.entries) then (false, u) else (
      true,
      record u { entries = insert node_name (record { pool = pool; created_at = now }) u.entries },
    )

unfoldable pub remove : String → PendingTracker → PendingTracker
remove node_name t = record t { entries = erase node_name t.entries }

unfoldable pub entries_for : String → Dict Entry → ℕ
entries_for pool = count_if (λ (_, e). e.pool == pool)

unfoldable pub count : String → ℤ → PendingTracker → ℕ × PendingTracker
unfolding gc_locked
count pool now t = let u = gc_locked now t in (entries_for pool u.entries, u)
