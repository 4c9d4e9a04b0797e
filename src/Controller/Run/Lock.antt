-- ===== src/Controller/Run/Lock.antt =====
-- The lock of the scale-down in the loop of internal/controller/controller.go.

use kamatera_autoscaler.Base.{
  ℕ, false, Option, some, ◌≡◌, refl, arith, inl, inr, Option-cases, Result-cases, List, ◌++◌,
  String,
}
use kamatera_autoscaler.Config.{Config, Pool}
use kamatera_autoscaler.Controller.Host.{Host, World}
use kamatera_autoscaler.Controller.Options.{Options, resolve}
use kamatera_autoscaler.Controller.ScaleDown.{scale_down, Sweep}
use kamatera_autoscaler.Controller.ScaleUp.Create.{request_node}
use kamatera_autoscaler.Controller.Run.{
  Controller, new_controller, end_creation, run_scale_up, run_scale_down, up_tick, down_tick,
  creation_ends, creation_requests, request_creation, Run, first, turn,
}

module _ (H : Host) (o : Options) (c : Config H.labels.Selector H.Template) where
  open H use {Outside, labels.{Selector}}

  pub lock_kept :
      (fuel : ℕ) (s t : Controller H o c)
      → s.scale_down_in_progress ≡ false
      → run_scale_down H o c fuel s ≡ some t
      → t.scale_down_in_progress ≡ false
  unfolding run_scale_down
  lock_kept fuel s t free h = elim (Option-cases (scale_down H (resolve o) fuel c s.world)) [
    | inl e ↦ ground arith
    | inr ((x, sweep), e) ↦ ground arith
  ]

  pub request_unlocked :
      (pool : Pool Selector) (node_name : String) (rest : List (Pool Selector × String))
      (s : Controller H o c)
      → s.scale_down_in_progress ≡ false
      → (request_creation H o c pool node_name rest s).scale_down_in_progress ≡ false
  unfolding request_creation
  request_unlocked pool node_name rest s free =
      elim (Result-cases (request_node H c pool node_name s.world).0) [
        | inl (cmd_id, e) ↦ ground arith
        | inr (x, e) ↦ ground arith
      ]

  Run-unlocked :
      {w : World Outside} {s : Controller H o c} → Run H o c w s → s.scale_down_in_progress ≡ false
  unfolding run_scale_up new_controller end_creation
  Run-unlocked (first visit s e) = rw e refl
  Run-unlocked (turn r (up_tick visit e)) = rw e (Run-unlocked r)
  Run-unlocked (turn {s} {t} r (down_tick fuel e)) = lock_kept fuel s t (Run-unlocked r) e
  Run-unlocked (turn {s} r (creation_requests before after pool node_name l e)) =
      rw e (request_unlocked pool node_name (before ++ after) s (Run-unlocked r))
  Run-unlocked (turn r (creation_ends before after pool node_name cmd_id l e)) =
      rw e (Run-unlocked r)

  -- Whenever the loop comes to a tick of the scale-down, the lock is free: the tick is not skipped, its
  -- cycle runs, and it leaves the lock free.
  pub run_scale_down_runs :
      (w : World Outside) (s : Controller H o c) (fuel : ℕ) (x : Option H.Failure)
      (sweep : Sweep H (resolve o))
      → Run H o c w s
      → scale_down H (resolve o) fuel c s.world ≡ some (x, sweep)
      → run_scale_down H o c fuel s
        ≡ some (record s { world = sweep.world; scale_down_in_progress = false })
  unfolding run_scale_down
  run_scale_down_runs w s fuel x sweep r h = ground (arith, Run-unlocked r)
