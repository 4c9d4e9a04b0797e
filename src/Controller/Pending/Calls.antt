-- ===== src/Controller/Pending/Calls.antt =====
-- The tracker (internal/controller/pending.go) under any sequence of calls, against a ledger that never
-- drops an entry by itself.
pub mod Agreement
use kamatera_autoscaler.Base.{
  ℕ, ℤ, ◌≤ℤ◌, Bool, true, false, if◌then◌else◌, String, List, [], ◌∷◌, Option, is_some,
}
use kamatera_autoscaler.Base.Dict.{Dict, lookup, insert, erase}
use kamatera_autoscaler.Controller.Pending.{Entry, PendingTracker, add, remove, count}
use kamatera_autoscaler.Controller.Pending.Laws.{while_live}
use kamatera_autoscaler.Controller.Pending.Live.{live_count}

-- A call of a method, with the times that it reads from the clock.
pub data Call : Type 0 where
  adds : String → String → ℤ → ℤ → Call
  removes : String → Call
  counts : String → ℤ → Call

pub data Answer : Type 0 where
  added : Bool → Answer
  removed : Answer
  counted : ℕ → Answer

unfoldable pub answer : Call → PendingTracker → Answer × PendingTracker
answer (adds pool name gc_now now) t = let (b, u) = add pool name gc_now now t in (added b, u)
answer (removes name) t = (removed, remove name t)
answer (counts pool now) t = let (n, u) = count pool now t in (counted n, u)

unfoldable pub answers : List Call → PendingTracker → List Answer
unfolding answer
answers [] t = []
answers (c ∷ cs) t = let (a, u) = answer c t in a ∷ answers cs u

-- The same calls on a ledger of every entry that was made and not removed. An entry counts while it is
-- alive.
abbrev pub is_held : ℤ → ℤ → Option Entry → Bool
is_held ttl now o = is_some (while_live ttl now o)

pub expect : ℤ → Call → Dict Entry → Answer × Dict Entry
expect ttl (adds pool name gc_now now) m =
    if is_held ttl gc_now (lookup name m)
    then (added false, m)
    else (added true, insert name (record { pool = pool; created_at = now }) m)
expect ttl (removes name) m = (removed, erase name m)
expect ttl (counts pool now) m = (counted (live_count pool ttl now m), m)

pub expected : ℤ → List Call → Dict Entry → List Answer
expected ttl [] m = []
expected ttl (c ∷ cs) m = let (a, n) = expect ttl c m in a ∷ expected ttl cs n

-- The clock does not go back.
abbrev pub InOrder : ℤ → List Call → Type 0
InOrder t [] = Unit
InOrder t (adds pool name gc_now now ∷ cs) = (t ≤ℤ gc_now) × (gc_now ≤ℤ now) × InOrder now cs
InOrder t (removes name ∷ cs) = InOrder t cs
InOrder t (counts pool now ∷ cs) = (t ≤ℤ now) × InOrder now cs
