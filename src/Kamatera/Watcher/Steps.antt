-- ===== src/Kamatera/Watcher/Steps.antt =====
-- Every order in which waiters come and go while the goroutine of internal/kamatera/watcher.go polls,
-- as a step relation on the watcher and the place where the goroutine stands.
pub mod Sound
pub mod Running
pub mod Waiters
pub mod Protocol
pub mod Names
pub mod Servers
use mathlib.Core.List.{Perm}
use kamatera_autoscaler.Base.{ℤ, true, String, List, Result, ◌≡◌}
use kamatera_autoscaler.Kamatera.Types.{Server, QueueStatus}
use kamatera_autoscaler.Kamatera.Errors.{Error}
use kamatera_autoscaler.Kamatera.Watcher.{
  PendingCmd, Watcher, Wait, new_cmd_watcher, register, cancel, commands, deliver, expire_deadlines,
  finish_pass,
}
use kamatera_autoscaler.Kamatera.Watcher.Tick.{tick_completions}

-- Where the goroutine stands: before a pass, in one with its snapshot, or behind one.
pub data Phase : Type 0 where
  resting : Phase
  polling : List PendingCmd → Phase
  finishing : Phase

pub record System : Type 0 where
  pub watcher : Watcher
  pub phase : Phase

-- A step of a waiter, of a context that ends, or of the goroutine. A snapshot lists the pending
-- commands in any order.
pub data Step (s : System) (t : System) : Type 0 where
  registers : (wait : Wait) → t ≡ record s { watcher = (register wait s.watcher).1 } → Step s t
  cancels : (id : String) → t ≡ record s { watcher = cancel id s.watcher } → Step s t
  snapshots :
      (ps : List PendingCmd)
      → s.phase ≡ resting
      → s.watcher.running ≡ true
      → Perm ps (commands s.watcher.pending)
      → t ≡ record s { phase = polling ps }
      → Step s t
  delivers :
      (ps : List PendingCmd) (queue : List QueueStatus) (now : ℤ)
      (answer : Result Error (List Server))
      → s.phase ≡ polling ps
      → t ≡ record {
        watcher = deliver (tick_completions queue now answer ps) s.watcher;
        phase = finishing;
      }
      → Step s t
  expires :
      (ps : List PendingCmd) (now : ℤ)
      → s.phase ≡ polling ps
      → t ≡ record { watcher = expire_deadlines ps now s.watcher; phase = finishing }
      → Step s t
  finishes :
      s.phase ≡ finishing
      → t ≡ record { watcher = finish_pass s.watcher; phase = resting }
      → Step s t

pub data Reach : System → Type 0 where
  start : (s : System) → s ≡ record { watcher = new_cmd_watcher; phase = resting } → Reach s
  next : {s t : System} → Reach s → Step s t → Reach t
