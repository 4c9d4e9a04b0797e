-- ===== src/Tests/Waits.antt =====
-- The theorems on single requests and on the watcher of internal/kamatera at concrete data.
use kamatera_autoscaler.Base.{List, inl, ℤ, pos, true, ◌≡◌, refl, [], ◌∷◌, ok, text_discrete}
use kamatera_autoscaler.Base.Dict.{lookup, insert}
use kamatera_autoscaler.Tests.{vm}
use kamatera_autoscaler.Kamatera.Http.{State}
use kamatera_autoscaler.Kamatera.Types.{QueueStatus}
use kamatera_autoscaler.Kamatera.Watcher.Tick.{tick_completions}
use kamatera_autoscaler.Kamatera.Watcher.Tick.Deadlines.{IsGone, tick_expires}
use kamatera_autoscaler.Kamatera.Watcher.{
  PendingCmd, deliver, expire_deadlines, Wait, register, new_cmd_watcher,
}
use kamatera_autoscaler.Kamatera.Watcher.Steps.{
  System, Reach, resting, polling, finishing, registers, snapshots, delivers, start, next,
}
use kamatera_autoscaler.Kamatera.Watcher.Steps.Waiters.{sent}
use kamatera_autoscaler.Kamatera.Watcher.Tick.{outcome, queue_by_id, server_by_name}
use kamatera_autoscaler.Kamatera.Types.{is_failure, is_terminal}
use kamatera_autoscaler.Kamatera.Watcher.{deliver_one}
use kamatera_autoscaler.Kamatera.Watcher.Steps.Servers.{Step-served}
use mathlib.Core.List.{Permᴰ}
use kamatera_autoscaler.Kamatera.Watcher.Steps.Sound.{IsSound, Reach-IsSound}
use kamatera_autoscaler.Kamatera.Watcher.Steps.Running.{Reach_running}

abbrev old_state : State ℤ
old_state = record { token = "old"; expires_at = pos 90000000000; outside = pos 0; sent = [] }

abbrev wait_9 : Wait
wait_9 = record { command_id = "9"; enrich_name = "n1"; deadline = pos 100 }

abbrev waiting : System
waiting = record { watcher = (register wait_9 new_cmd_watcher).1; phase = resting }

waiting_reached : Reach waiting
waiting_reached =
    next (start (record { watcher = new_cmd_watcher; phase = resting }) refl)
      (registers wait_9 refl)

Reach-IsSound_example : IsSound waiting.watcher
Reach-IsSound_example = Reach-IsSound waiting_reached

Reach_running_example : waiting.watcher.running ≡ true
unfolding register new_cmd_watcher insert lookup text_discrete
Reach_running_example = Reach_running waiting_reached (λ e. cc)

-- The command of `wait_9`, which the queue lists as complete.
abbrev cmd_9 : PendingCmd
cmd_9 = record { command_id = "9"; enrich_name = "n1"; channel = 0; deadline = pos 100 }

abbrev queue_9 : List QueueStatus
queue_9 = record { id = "9"; status = "complete"; server = "n1"; log = "" } ∷ []

tick_expires_example :
    IsGone cmd_9 (deliver (tick_completions queue_9 (pos 101) (ok []) (cmd_9 ∷ [])) waiting.watcher)
    × IsGone cmd_9 (expire_deadlines (cmd_9 ∷ []) (pos 101) waiting.watcher)
tick_expires_example =
    tick_expires queue_9 (pos 101) (ok []) (cmd_9 ∷ []) waiting.watcher cmd_9 (inl refl) refl

-- A pass over the waiting command, which is complete.
abbrev in_pass : System
in_pass = record waiting { phase = polling (cmd_9 ∷ []) }

abbrev answered : System
answered = record {
  watcher = deliver (tick_completions queue_9 (pos 0) (ok (vm ∷ [])) (cmd_9 ∷ [])) waiting.watcher;
  phase = finishing;
}

in_pass_reached : Reach in_pass
unfolding register new_cmd_watcher insert lookup text_discrete
in_pass_reached =
    next waiting_reached (snapshots (cmd_9 ∷ []) refl refl ∣ Permᴰ.cons refl Permᴰ.nil ∣₁ refl)

Step-served_example : vm.name ≡ cmd_9.enrich_name
unfolding register new_cmd_watcher insert lookup text_discrete sent deliver tick_completions outcome
    queue_by_id is_failure is_terminal deliver_one server_by_name
Step-served_example =
    Step-served {t = answered} "9" cmd_9 vm in_pass_reached
      (delivers (cmd_9 ∷ []) queue_9 (pos 0) (ok (vm ∷ [])) refl refl) refl (λ e. cc) refl
