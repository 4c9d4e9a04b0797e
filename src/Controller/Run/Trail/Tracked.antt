-- ===== src/Controller/Run/Trail/Tracked.antt =====
-- The tracker and the lock while the scale-up cycles of internal/controller/scale_up.go run between the
-- steps of the creations.
use kamatera_autoscaler.Base.{
  ℕ, zero, suc, true, is_some, false, String, [], ◌∷◌, ◌++◌, Option, some, ◌≡◌, refl, inl, inr,
  arith, subst, sym, map, Option-cases,
}
use kamatera_autoscaler.Base.Dict.{Dict, lookup}
use kamatera_autoscaler.Config.{Config, Pool, pool_by_name}
use kamatera_autoscaler.Controller.Host.{Host, World, ask}
use kamatera_autoscaler.Controller.Options.{Options, new_tracker, resolve}
use kamatera_autoscaler.Controller.Pending.Laws.{count-TrackerIsValid, count_known}
use kamatera_autoscaler.Controller.ScaleDown.{scale_down, Sweep}
use kamatera_autoscaler.Controller.Run.{Controller, new_controller, run_scale_down, end_creation}
use kamatera_autoscaler.Controller.Run.Cycles.{is_creating, IsBacked, start_node-IsBacked}
use kamatera_autoscaler.Controller.Run.Backed.{
  works, run_scale_down_same, request_creation-IsBacked, end_creation-IsBacked,
}
use kamatera_autoscaler.Controller.Run.Lock.{lock_kept, request_unlocked}
use kamatera_autoscaler.Controller.Run.Trail.{
  Phase, idle, lists, visits, starts, start_next, advance, Move, scales_up, scales_down, requests,
  finishes, Trail, begins, moves,
}

module _ (H : Host) (o : Options) (c : Config H.labels.Selector H.Template) where
  open H use {Outside, cluster, now, labels.{Selector}}

  -- Every name that the tracker holds is one of a creation that is not over, and the lock is free.
  pub record IsSettled (s : Controller H o c) : Type 0 where
    pub backed : IsBacked s.creating (works H o c s)
    pub unlocked : s.scale_down_in_progress ≡ false

  start_next-IsSettled :
      (name : String) (pool : Pool Selector) (s : Controller H o c)
      → IsSettled s
      → IsSettled (start_next H o c name pool s)
  unfolding start_next
  start_next-IsSettled name pool s i = record {
    backed =
        start_node-IsBacked H c name pool (map (λ (x, _). x) s.waiting)
          (record { creating = s.creating; started = s.creations; world = s.world }) i.backed;
    unlocked = i.unlocked;
  }

  advance-IsSettled :
      (visit : Dict ℕ → Dict ℕ) (p : Phase Selector) (s : Controller H o c)
      → IsSettled s
      → IsSettled (advance H o c visit p s).1
  unfolding advance
  advance-IsSettled visit idle s i = record { backed = i.backed; unlocked = i.unlocked }
  advance-IsSettled visit (lists pending) s i = record { backed = i.backed; unlocked = i.unlocked }
  advance-IsSettled visit (visits nodes []) s i = i
  advance-IsSettled visit (visits nodes ((name, pending) ∷ rest)) s i =
      elim (Option-cases (pool_by_name c name)) [
        | inl missing ↦ rw (missing, advance) i
        | inr (pool, found) ↦
            let t = (ask now s.world).0 in
            rw (found, advance)
              (record {
                backed = record {
                  valid = count-TrackerIsValid name t s.creating i.backed.valid;
                  backed =
                      λ k h. i.backed.backed k (count_known name k t s.creating i.backed.valid h);
                };
                unlocked = i.unlocked;
              })
      ]
  advance-IsSettled visit (starts nodes rest name pool zero) s i = i
  advance-IsSettled visit (starts nodes rest name pool (suc n)) s i =
      start_next-IsSettled name pool s i

  run_scale_down-IsSettled :
      (fuel : ℕ) (s t : Controller H o c)
      → run_scale_down H o c fuel s ≡ some t
      → IsSettled s
      → IsSettled t
  run_scale_down-IsSettled fuel s t h i =
      let (same, creations, waiting) = run_scale_down_same H o c fuel s t h in
      record {
        backed = rw (same, creations, waiting) i.backed;
        unlocked = lock_kept H o c fuel s t i.unlocked h;
      }

  Move-IsSettled :
      (p q : Phase Selector) (s t : Controller H o c)
      → Move H o c p q s t
      → IsSettled s
      → IsSettled t
  unfolding end_creation
  Move-IsSettled p q s t (scales_up visit e) i =
      subst (λ x. IsSettled x.1) (sym e) (advance-IsSettled visit p s i)
  Move-IsSettled p q s t (scales_down fuel e f h) i = run_scale_down-IsSettled fuel s t h i
  Move-IsSettled p q s t (requests before after pool name e l h) i = rw h (record {
    backed = request_creation-IsBacked H o c pool name before after s l i.backed;
    unlocked = request_unlocked H o c pool name (before ++ after) s i.unlocked;
  })
  Move-IsSettled p q s t (finishes before after pool name cmd_id e l h) i = rw h (record {
    backed = end_creation-IsBacked H o c name cmd_id pool before after s l i.backed;
    unlocked = i.unlocked;
  })

  pub Trail-IsSettled :
      (w : World Outside) (p : Phase Selector) (s : Controller H o c)
      → Trail H o c w p s
      → IsSettled s
  unfolding new_controller new_tracker lookup
  Trail-IsSettled w p s (begins visit q t e) =
      subst (λ x. IsSettled x.1) (sym e)
        (advance-IsSettled visit idle (new_controller H o c w) (record {
          backed = record { valid = tt; backed = λ k h. ground arith };
          unlocked = refl;
        }))
  Trail-IsSettled w q t (moves {p} {s} r m) = Move-IsSettled p q s t m (Trail-IsSettled w p s r)

  -- Whatever steps of creations come within its scale-up cycles, in every state of the loop a name that
  -- the tracker holds is one of a creation that is not over.
  pub Trail-works :
      (w : World Outside) (p : Phase Selector) (s : Controller H o c) (k : String)
      → Trail H o c w p s
      → is_some (lookup k s.creating.entries) ≡ true
      → is_creating k (works H o c s) ≡ true
  Trail-works w p s k r held = (Trail-IsSettled w p s r).backed.backed k held

  -- Where the loop comes to a tick of the scale-down, the tick is not skipped: its cycle runs, and it
  -- leaves the lock free.
  pub scales_down_runs :
      (w : World Outside) (s : Controller H o c) (fuel : ℕ) (x : Option H.Failure)
      (sweep : Sweep H (resolve o))
      → Trail H o c w idle s
      → scale_down H (resolve o) fuel c s.world ≡ some (x, sweep)
      → run_scale_down H o c fuel s
        ≡ some (record s { world = sweep.world; scale_down_in_progress = false })
  unfolding run_scale_down
  scales_down_runs w s fuel x sweep r h = ground (arith, (Trail-IsSettled w idle s r).unlocked)
