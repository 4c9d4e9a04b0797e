-- ===== src/Kamatera/Watcher/Steps/Running.antt =====
-- The flag `running` of internal/kamatera/watcher.go, whatever the order of the steps.

use kamatera_autoscaler.Base.{
  ℤ, ltb_ℤ, true, false, String, List, [], ◌∷◌, err, ◌≡◌, ◌≢◌, refl, sym, ◌∙◌, arith, inl, inr,
  if◌then◌else◌, Bool-cases,
}
use kamatera_autoscaler.Base.Dict.{Dict, erase}
use kamatera_autoscaler.Kamatera.Watcher.{
  PendingCmd, WaitResult, Watcher, new_cmd_watcher, register, cancel, deliver_one, deliver,
  timeout_error, expire_deadlines, has_none, finish_pass,
}
use kamatera_autoscaler.Kamatera.Watcher.Tick.{tick_completions}
use kamatera_autoscaler.Kamatera.Watcher.Steps.{
  System, Step, Reach, resting, polling, finishing, registers, cancels, snapshots, delivers,
  expires, finishes, start, next,
}

-- A goroutine that is in a pass is the running one, and no command is pending without one.
record IsRunning (s : System) : Type 0 where
  busy : (s.watcher.running ≡ false) → s.phase ≡ resting
  served : (s.watcher.running ≡ false) → s.watcher.pending ≡ []

erase_none : {V : Type 0} (k : String) (m : Dict V) → m ≡ [] → erase k m ≡ []
unfolding erase
erase_none k m e = rw e refl

deliver_one_running :
    (c : PendingCmd × WaitResult) (w : Watcher) → (deliver_one c w).running ≡ w.running
unfolding deliver_one
deliver_one_running c w = ground arith

deliver_running :
    (cs : List (PendingCmd × WaitResult)) (w : Watcher) → (deliver cs w).running ≡ w.running
unfolding deliver
deliver_running [] w = refl
deliver_running (c ∷ cs) w = deliver_running cs (deliver_one c w) ∙ deliver_one_running c w

expire_deadlines_running :
    (ps : List PendingCmd) (now : ℤ) (w : Watcher) → (expire_deadlines ps now w).running ≡ w.running
unfolding expire_deadlines
expire_deadlines_running [] now w = refl
expire_deadlines_running (p ∷ ps) now w = ground (
  arith,
  expire_deadlines_running ps now
      (if ltb_ℤ p.deadline now then deliver_one (p, err (timeout_error p)) w else w),
  deliver_one_running (p, err (timeout_error p)) w,
)

resting_other : {ps : List PendingCmd} → resting ≢ polling ps
resting_other e = cc

has_none→eq : (m : Dict PendingCmd) → has_none m ≡ true → m ≡ []
has_none→eq [] e = refl
has_none→eq (p ∷ m) e = cc

-- The end of a pass, which leaves the flag alone.
stopped :
    (s : System) (ps : List PendingCmd) (w : Watcher)
    → s.phase ≡ polling ps
    → IsRunning s
    → w.running ≡ s.watcher.running
    → IsRunning (record { watcher = w; phase = finishing })
stopped s ps w p v same =
    let off = λ (r : w.running ≡ false). v.busy (sym same ∙ r) in
    record {
      busy = λ r. absurd (resting_other (sym (off r) ∙ p));
      served = λ r. absurd (resting_other (sym (off r) ∙ p));
    }

Step-IsRunning : {s t : System} → Step s t → IsRunning s → IsRunning t
unfolding register cancel finish_pass
Step-IsRunning {s} (registers wait e) v =
    rw e (record { busy = λ r. ground (arith, v.busy); served = λ r. ground (arith, v.served) })
Step-IsRunning {s} (cancels id e) v =
    rw e (record { busy = v.busy; served = λ r. erase_none id s.watcher.pending (v.served r) })
Step-IsRunning {s} (snapshots ps r g p e) v = rw e (record { busy = λ f. cc; served = v.served })
Step-IsRunning {s} (delivers ps queue now answer p e) v =
    rw e (stopped s ps _ p v (deliver_running (tick_completions queue now answer ps) s.watcher))
Step-IsRunning {s} (expires ps now p e) v =
    rw e (stopped s ps _ p v (expire_deadlines_running ps now s.watcher))
Step-IsRunning {s} (finishes p e) v = rw e (record {
  busy = λ r. refl;
  served = λ r. ground (arith, v.busy, has_none→eq s.watcher.pending);
})

Reach-IsRunning : {s : System} → Reach s → IsRunning s
unfolding new_cmd_watcher
Reach-IsRunning (start s e) = rw e (record { busy = λ r. refl; served = λ r. refl })
Reach-IsRunning (next r st) = Step-IsRunning st (Reach-IsRunning r)

-- In every state that steps reach, in any order, no command is pending without a running goroutine.
pub Reach_running : {s : System} → Reach s → s.watcher.pending ≢ [] → s.watcher.running ≡ true
Reach_running {s} r some_pending = elim (Bool-cases s.watcher.running) [
  | inl on ↦ on
  | inr off ↦ absurd (some_pending ((Reach-IsRunning r).served off))
]
