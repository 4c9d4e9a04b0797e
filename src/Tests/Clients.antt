-- ===== src/Tests/Clients.antt =====
-- The theorems on the waiters of internal/kamatera at concrete data.
use kamatera_autoscaler.Base.{pos, refl, text_discrete}
use kamatera_autoscaler.Base.Dict.{insert, lookup}
use kamatera_autoscaler.Kamatera.Watcher.{PendingCmd, Wait, cancel, register, new_cmd_watcher}
use kamatera_autoscaler.Kamatera.Watcher.Steps.{
  System, Reach, resting, registers, cancels, start, next,
}
use kamatera_autoscaler.Kamatera.Watcher.Steps.Waiters.{Status, waiting, Leads, HasStatus}
use kamatera_autoscaler.Kamatera.Watcher.Steps.Protocol.{Step-Leads}

abbrev wait_5 : Wait
wait_5 = record { command_id = "5"; enrich_name = ""; deadline = pos 100 }

abbrev cmd_5 : PendingCmd
cmd_5 = record { command_id = "5"; enrich_name = ""; channel = 0; deadline = pos 100 }

abbrev registered_5 : System
registered_5 = record { watcher = (register wait_5 new_cmd_watcher).1; phase = resting }

abbrev cancelled_5 : System
cancelled_5 = record registered_5 { watcher = cancel "5" registered_5.watcher }

registered_5_reached : Reach registered_5
registered_5_reached =
    next (start (record { watcher = new_cmd_watcher; phase = resting }) refl)
      (registers wait_5 refl)

-- The waiter gives up.
Step-Leads_example : (y : Status) × HasStatus cancelled_5.watcher 0 y × Leads waiting y
unfolding register new_cmd_watcher insert lookup text_discrete
Step-Leads_example =
    Step-Leads 0 waiting registered_5_reached (cancels "5" refl) ("5", cmd_5, refl, refl)
