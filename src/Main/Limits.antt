-- ===== src/Main/Limits.antt =====
-- The limits of the pools in a controller that `main` (cmd/autoscaler/main.go) starts.
use kamatera_autoscaler.Base.{
  count_if, ◌-◌, ◌≤◌, ◌⊎◌, none, ok, refl, false, List, pos, ◌+◌, ◌≤ℤ◌, String, some, ◌≡◌, arith,
}
use kamatera_autoscaler.Config.{Pool, pool_by_name}
use kamatera_autoscaler.Config.Load.Laws.{Visits}
use kamatera_autoscaler.Kube.{Node}
use kamatera_autoscaler.Controller.Host.{World}
use kamatera_autoscaler.Controller.Options.{resolve}
use kamatera_autoscaler.Controller.Match.Laws.{is_in_pool}
use kamatera_autoscaler.Controller.Drain.Ends.{KeepsTime}
use kamatera_autoscaler.Controller.ScaleDown.Ends.{scale_down_ends}
use kamatera_autoscaler.Controller.ScaleDown.Losses.{lost_nodes, failed_deletions, scale_down-lost}
use kamatera_autoscaler.Controller.Run.Trail.Tracked.{scales_down_runs}
use kamatera_autoscaler.Controller.Pending.{entries_for}
use kamatera_autoscaler.Controller.Run.{Controller, run_scale_down}
use kamatera_autoscaler.Controller.Run.Trail.{Phase, idle, Trail}
use kamatera_autoscaler.Controller.Run.Trail.Plans.{ahead, Trail-IsPlanned}
use kamatera_autoscaler.Kamatera.Http.{State}
use kamatera_autoscaler.Main.{Machine, main, Started, runs, host, zero_options}
use kamatera_autoscaler.Main.Runs.{main-IsStarted, started_pool}

module _ (M : Machine) where
  open M use {Outside, labels.{Selector}}

  -- In every state of the loop of a started controller, whatever steps of creations come within its
  -- scale-up cycles, the nodes in flight for a configured pool and those that the cycle has still to
  -- start for it are no more than its `max_nodes`.
  pub main_keeps_max :
      (w w1 : Outside) (s : Started M) (start : World (State Outside)) (p : Phase Selector)
      (c : Controller (host M s) zero_options s.config) (q : String) (pool : Pool Selector)
      → Visits M.visited
      → main M w ≡ (runs s, w1)
      → Trail (host M s) zero_options s.config start p c
      → pool_by_name s.config q ≡ some pool
      → pos (entries_for q c.creating.entries + ahead (host M s) zero_options s.config q p)
        ≤ℤ pool.max_nodes
  main_keeps_max w w1 s start p c q pool v h trail found =
      let (no_help, started) = main-IsStarted M w w1 s v h in
      let (sel, parsed, valid) = started_pool M w w1 s q pool started found in
      let planned = Trail-IsPlanned (host M s) zero_options s.config start p c trail in
      planned.fits q pool found (omega (arith, valid.lower, valid.upper))

  -- Wherever the loop of a started controller comes to a tick of the scale-down with the nodes to be
  -- listed, whatever steps of creations came within its scale-up cycles, the tick is not skipped, and with
  -- a clock that keeps time its cycle ends within its fuel. By the events of the cycle, a configured pool
  -- has lost no more nodes than deletions of node objects failed, or its minimum of the listed nodes is
  -- left, counted with one lost node less for each deletion that failed.
  pub main_keeps_min :
      (w w1 : Outside) (s : Started M) (start : World (State Outside))
      (c : Controller (host M s) zero_options s.config) (q : String) (pool : Pool Selector)
      (nodes : List Node)
      → KeepsTime (host M s)
      → Visits M.visited
      → main M w ≡ (runs s, w1)
      → Trail (host M s) zero_options s.config start idle c
      → pool_by_name s.config q ≡ some pool
      → ((host M s).cluster.list_nodes c.world.outside).0 ≡ ok nodes
      → (v : World (State Outside)) × (run_scale_down (host M s) zero_options s.config 152 c
          ≡ some (record c { world = v; scale_down_in_progress = false }))
        × (let all = count_if (is_in_pool q) nodes in
            let lost =
              count_if
                (is_in_pool q)
                (lost_nodes (host M s) (resolve zero_options) 152 s.config c.world) in
            let failed = failed_deletions v - failed_deletions c.world in
            (lost ≤ failed)
            ⊎ ((lost - failed ≤ all) × (pool.min_nodes ≤ℤ pos (all - (lost - failed)))))
  unfolding resolve
  main_keeps_min w w1 s start c q pool nodes clock v h run found listed =
      let (no_help, started) = main-IsStarted M w w1 s v h in
      let (sel, parsed, valid) = started_pool M w w1 s q pool started found in
      let o = resolve zero_options in
      let (sweep, done) =
        scale_down_ends (host M s) clock o 300 151 s.config c.world nodes refl (omega arith)
          listed in
      (
        sweep.world,
        scales_down_runs (host M s) zero_options s.config start c 152 none sweep run done,
        scale_down-lost (host M s) o 152 s.config q pool c.world nodes sweep found valid.lower
            listed done,
      )
