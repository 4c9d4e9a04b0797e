-- ===== src/Kamatera/Watcher.antt =====
-- `cmdWatcher` of internal/kamatera/watcher.go: the commands that are waited for, and the passes of
-- the goroutine that polls for them. Every stretch under the mutex is one step; the calls of the API
-- stand between such steps. Each waiter has a channel of its own, here its number, and a pointer to a
-- `pendingCmd` is the number of its channel; what was sent on the channels is a log, newest first.
pub mod Tick
pub mod Steps
use kamatera_autoscaler.Base.{
  ℕ, suc, ℤ, ltb_ℤ, eqb, Bool, true, false, String, ◌<>◌, ◌==◌, List, [], ◌∷◌, map, none, some,
  is_some, Result, ok, err, if◌then◌else◌,
}
use kamatera_autoscaler.Base.Dict.{Dict, lookup, insert, erase}
use kamatera_autoscaler.Kamatera.Types.{Server}
use kamatera_autoscaler.Kamatera.Errors.{Error, message}

pub record PendingCmd : Type 0 where
  pub command_id : String
  pub enrich_name : String
  pub channel : ℕ
  pub deadline : ℤ

abbrev pub WaitResult : Type 0
WaitResult = Result Error Server

pub record Watcher : Type 0 where
  pub pending : Dict PendingCmd
  pub running : Bool
  -- the number of the next channel
  pub channels : ℕ
  pub delivered : List (ℕ × WaitResult)

unfoldable pub new_cmd_watcher : Watcher
new_cmd_watcher = record { pending = []; running = false; channels = 0; delivered = [] }

-- What a wait asks for. A wait for a termination has an empty name to enrich with.
pub record Wait : Type 0 where
  pub command_id : String
  pub enrich_name : String
  pub deadline : ℤ

-- The first half of `register`: the channel to wait on, or an error, and the watcher, whose goroutine
-- runs from here on.
unfoldable pub register : Wait → Watcher → Result Error ℕ × Watcher
register wait w =
    if wait.command_id == ""
    then (err (message "kamatera: wait registered with empty commandID"), w)
    else if is_some (lookup wait.command_id w.pending)
    then (
      err (message ("kamatera: command " <> (wait.command_id <> " is already being waited on"))),
      w,
    )
    else (
      ok w.channels,
      record w {
        pending =
            insert wait.command_id
              (record {
                command_id = wait.command_id;
                enrich_name = wait.enrich_name;
                channel = w.channels;
                deadline = wait.deadline;
              })
              w.pending;
        running = true;
        channels = suc w.channels;
      },
    )

-- The end of a waiter's context.
unfoldable pub cancel : String → Watcher → Watcher
cancel command_id w = record w { pending = erase command_id w.pending }

-- The commands in the map, in the order in which it was visited.
abbrev pub commands : Dict PendingCmd → List PendingCmd
commands = map (λ (_, p). p)

-- A result goes to the waiter if its command is still pending under the same pointer. That sends on
-- the channel, closes it and forgets the command.
unfoldable pub deliver_one : PendingCmd × WaitResult → Watcher → Watcher
deliver_one (p, r) w = elim (lookup p.command_id w.pending) [
  | none ↦ w
  | some cur ↦
      if eqb cur.channel p.channel
      then record w {
        pending = erase p.command_id w.pending;
        delivered = (cur.channel, r) ∷ w.delivered;
      }
      else w
]

-- The loop at the end of `tick`.
unfoldable pub deliver : List (PendingCmd × WaitResult) → Watcher → Watcher
deliver [] w = w
deliver (c ∷ cs) w = deliver cs (deliver_one c w)

abbrev pub timeout_error : PendingCmd → Error
timeout_error p = message ("kamatera: timeout waiting for command " <> p.command_id)

-- The loop of `expireDeadlines`: each expired command gets its timeout.
unfoldable pub expire_deadlines : List PendingCmd → ℤ → Watcher → Watcher
expire_deadlines [] now w = w
expire_deadlines (p ∷ ps) now w =
    expire_deadlines ps now
      (if ltb_ℤ p.deadline now then deliver_one (p, err (timeout_error p)) w else w)

abbrev pub has_none : Dict PendingCmd → Bool
has_none [] = true
has_none (p ∷ ps) = false

-- After each pass the goroutine ends if nothing is pending.
unfoldable pub finish_pass : Watcher → Watcher
finish_pass w = if has_none w.pending then record w { running = false } else w
