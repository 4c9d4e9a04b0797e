-- ===== src/Controller/Run/Backed.antt =====
-- The tracker between the turns of the loop of internal/controller/controller.go.
use mathlib.Core.List.{append_assoc}
use kamatera_autoscaler.Base.{
  subst, ℕ, ◌||◌, String, ◌==◌, List, [], ◌∷◌, ◌++◌, some, ◌≡◌, refl, arith, inl, inr, Option-cases,
  Result-cases, Bool-cases, ap, map,
}
use kamatera_autoscaler.Base.Dict.{Dict, lookup}
use kamatera_autoscaler.Config.{Config, Pool}
use kamatera_autoscaler.Controller.Host.{Host, World}
use kamatera_autoscaler.Controller.Options.{Options, new_tracker, resolve}
use kamatera_autoscaler.Controller.Pending.{PendingTracker, remove}
use kamatera_autoscaler.Controller.Pending.Laws.{remove-TrackerIsValid, lookup-remove}
use kamatera_autoscaler.Controller.ScaleUp.{scale_up}
use kamatera_autoscaler.Controller.ScaleUp.Create.{request_node}
use kamatera_autoscaler.Controller.ScaleDown.{scale_down}
use kamatera_autoscaler.Controller.Run.{
  Controller, new_controller, end_creation, run_scale_up, run_scale_down, up_tick, down_tick,
  creation_ends, creation_requests, request_creation, Run, first, turn,
}
use kamatera_autoscaler.Controller.Run.Cycles.{
  Creations, is_creating, is_creating_append, IsBacked, scale_up-IsBacked,
}

module _ (H : Host) (o : Options) (c : Config H.labels.Selector H.Template) where
  open H use {Outside, labels.{Selector}}

  pub run_scale_down_same :
      (fuel : ℕ) (s t : Controller H o c)
      → run_scale_down H o c fuel s ≡ some t
      → (t.creating ≡ s.creating) × (t.creations ≡ s.creations) × (t.waiting ≡ s.waiting)
  unfolding run_scale_down
  run_scale_down_same fuel s t h = elim (Bool-cases s.scale_down_in_progress) [
    | inl held ↦ (ground arith, ground arith, ground arith)
    | inr free ↦ elim (Option-cases (scale_down H (resolve o) fuel c s.world)) [
      | inl e ↦ ground arith
      | inr ((x, sweep), e) ↦ (ground arith, ground arith, ground arith)
    ]
  ]

  -- The creations that are not over.
  abbrev pub works : Controller H o c → List (Pool Selector × String)
  works s = map (λ (x, _). x) s.waiting ++ s.creations

  run_scale_up-IsBacked :
      (visit : Dict ℕ → Dict ℕ) (s : Controller H o c)
      → IsBacked s.creating (works s)
      → IsBacked (run_scale_up H o c visit s).creating (works (run_scale_up H o c visit s))
  unfolding run_scale_up
  run_scale_up-IsBacked visit s b =
      let cycle = (scale_up H c visit s.creating s.world).1 in
      subst (IsBacked cycle.creating)
        (append_assoc (map (λ (x, _). x) s.waiting) s.creations cycle.started)
        (scale_up-IsBacked H c visit s.creating s.world (works s) b)

  abbrev names : List ((Pool Selector × String) × String) → Creations Selector
  names = map (λ (x, _). x)

  is_creating-names :
      (k : String) (xs ys : List ((Pool Selector × String) × String))
      → is_creating k (names (xs ++ ys)) ≡ (is_creating k (names xs) || is_creating k (names ys))
  is_creating-names k [] ys = refl
  is_creating-names k (x ∷ xs) ys = ground (arith, is_creating-names k xs ys)

  -- A name that is removed may leave the creations.
  removed-IsBacked :
      (name : String) (t : PendingTracker) (cs ds : Creations Selector)
      → ((k : String) → is_creating k cs ≡ (is_creating k ds || (name == k)))
      → IsBacked t cs
      → IsBacked (remove name t) ds
  removed-IsBacked name t cs ds left b = record {
    valid = remove-TrackerIsValid name t b.valid;
    backed = λ k h. ground (arith, lookup-remove name k t, b.backed k, left k);
  }

  -- One of the creations in front of its request, among all.
  works-creation :
      (k name : String) (pool : Pool Selector) (before after : Creations Selector)
      (s : Controller H o c)
      → s.creations ≡ before ++ (pool, name) ∷ after
      → is_creating k (works s)
        ≡ (is_creating k (names s.waiting ++ (before ++ after)) || (name == k))
  works-creation k name pool before after s l = ground (
    arith,
    is_creating_append k (names s.waiting) s.creations,
    is_creating_append k (names s.waiting) (before ++ after),
    is_creating_append k before after,
    is_creating_append k before ((pool, name) ∷ after),
    ap (is_creating k) l,
  )

  works-waiting :
      (k name cmd_id : String) (pool : Pool Selector)
      (before after : List ((Pool Selector × String) × String)) (s : Controller H o c)
      → s.waiting ≡ before ++ ((pool, name), cmd_id) ∷ after
      → is_creating k (works s)
        ≡ (is_creating k (names (before ++ after) ++ s.creations) || (name == k))
  works-waiting k name cmd_id pool before after s l = ground (
    arith,
    is_creating_append k (names s.waiting) s.creations,
    is_creating_append k (names (before ++ after)) s.creations,
    is_creating-names k before after,
    is_creating-names k before (((pool, name), cmd_id) ∷ after),
    ap (λ ws. is_creating k (names ws)) l,
  )

  pub request_creation-IsBacked :
      (pool : Pool Selector) (name : String) (before after : Creations Selector)
      (s : Controller H o c)
      → s.creations ≡ before ++ (pool, name) ∷ after
      → IsBacked s.creating (works s)
      → let t = request_creation H o c pool name (before ++ after) s in
        IsBacked t.creating (works t)
  unfolding request_creation
  request_creation-IsBacked pool name before after s l b =
      elim (Result-cases (request_node H c pool name s.world).0) [
        | inl (cmd_id, e) ↦
            rw (e, request_creation)
              (record {
                valid = b.valid;
                backed = λ k h. ground (
                  arith,
                  b.backed k h,
                  works-creation k name pool before after s l,
                  is_creating_append k (names s.waiting) (before ++ after),
                  is_creating_append k (names (s.waiting ++ ((pool, name), cmd_id) ∷ []))
                      (before ++ after),
                  is_creating-names k s.waiting (((pool, name), cmd_id) ∷ []),
                );
              })
        | inr (x, e) ↦
            rw (e, request_creation)
              (removed-IsBacked name s.creating (works s) (names s.waiting ++ (before ++ after))
                (λ k. works-creation k name pool before after s l) b)
      ]

  pub end_creation-IsBacked :
      (name cmd_id : String) (pool : Pool Selector)
      (before after : List ((Pool Selector × String) × String)) (s : Controller H o c)
      → s.waiting ≡ before ++ ((pool, name), cmd_id) ∷ after
      → IsBacked s.creating (works s)
      → let t = end_creation H o c name cmd_id (before ++ after) s in IsBacked t.creating (works t)
  unfolding end_creation
  end_creation-IsBacked name cmd_id pool before after s l b =
      removed-IsBacked name s.creating (works s) (names (before ++ after) ++ s.creations)
        (λ k. works-waiting k name cmd_id pool before after s l) b

  -- Between the turns of the loop, every node that the tracker holds belongs to a creation that has not
  -- ended, so that a creation that is over takes no room from its pool.
  pub Run-IsBacked :
      {w : World Outside} {s : Controller H o c} → Run H o c w s → IsBacked s.creating (works s)
  unfolding new_controller new_tracker lookup
  Run-IsBacked {w} (first visit s e) = rw e (
      run_scale_up-IsBacked visit (new_controller H o c w)
        (record { valid = tt; backed = λ k h. ground arith }))
  Run-IsBacked (turn {s} r (up_tick visit e)) =
      rw e (run_scale_up-IsBacked visit s (Run-IsBacked r))
  Run-IsBacked (turn {s} {t} r (down_tick fuel e)) =
      let (same, creations, waiting) = run_scale_down_same fuel s t e in
      rw (same, creations, waiting) (Run-IsBacked r)
  Run-IsBacked (turn {s} r (creation_requests before after pool name l e)) =
      rw e (request_creation-IsBacked pool name before after s l (Run-IsBacked r))
  Run-IsBacked (turn {s} r (creation_ends before after pool name cmd_id l e)) =
      rw e (end_creation-IsBacked name cmd_id pool before after s l (Run-IsBacked r))
