-- ===== src/Controller/Run/Trail/Ends.antt =====
-- The steps of a scale-up cycle of internal/controller/scale_up.go, whatever happens between them.
use kamatera_autoscaler.Base.{
  ℕ, zero, suc, ◌+◌, ◌-◌, ◌≤◌, ℤ, ◌-ℤ◌, Bool, true, false, List, [], ◌∷◌, length, ◌≡◌, ◌≢◌, refl,
  inl, inr, arith, Option-cases,
}
use kamatera_autoscaler.Base.Dict.{Dict, get_int}
use kamatera_autoscaler.Config.{Config, pool_by_name}
use kamatera_autoscaler.Controller.Host.{Host, ask}
use kamatera_autoscaler.Controller.Options.{Options}
use kamatera_autoscaler.Controller.Pending.{count}
use kamatera_autoscaler.Controller.ScaleUp.{nodes_to_create}
use kamatera_autoscaler.Controller.Run.{Controller}
use kamatera_autoscaler.Controller.Run.Trail.{Phase, idle, lists, visits, starts, advance}

-- Two steps for a pool, and one for each of its pending pods.
abbrev pub visit_steps : Dict ℕ → ℕ
visit_steps [] = 0
visit_steps ((name, pending) ∷ rest) = 2 + pending + visit_steps rest

-- The steps that a cycle which has counted has before it, at most.
abbrev pub cycle_steps : {S : Type 0} → Phase S → ℕ
cycle_steps idle = 0
cycle_steps (lists pending) = 0
cycle_steps (visits nodes rest) = 1 + visit_steps rest
cycle_steps (starts nodes rest name pool n) = 2 + n + visit_steps rest

-- A cycle is under way and has counted, or is over.
abbrev pub has_counted : {S : Type 0} → Phase S → Bool
has_counted idle = true
has_counted (lists pending) = false
has_counted (visits nodes rest) = true
has_counted (starts nodes rest name pool n) = true

nodes_to_create-pending :
    (max : ℤ) (current in_flight pending : ℕ)
    → nodes_to_create max current in_flight pending ≤ pending
unfolding nodes_to_create ◌-ℤ◌
nodes_to_create-pending max current in_flight pending = ground arith

module _ (H : Host) (o : Options) (c : Config H.labels.Selector H.Template) where
  open H use {labels.{Selector}}

  -- A cycle that goes on to its end, with a change by others in front of each of its steps.
  unfoldable pub drive :
      (Dict ℕ → Dict ℕ)
      → List (Controller H o c → Controller H o c)
      → Phase Selector
      → Controller H o c
      → Phase Selector × Controller H o c
  drive visit fs idle s = (idle, s)
  drive visit [] p s = (p, s)
  drive visit (f ∷ fs) p s = let (q, t) = advance H o c visit p (f s) in drive visit fs q t

  advance-cycle_steps :
      (visit : Dict ℕ → Dict ℕ) (p : Phase Selector) (s : Controller H o c)
      → has_counted p ≡ true
      → p ≢ idle
      → (has_counted (advance H o c visit p s).0 ≡ true)
        × (cycle_steps (advance H o c visit p s).0 ≤ cycle_steps p - 1)
  unfolding advance
  advance-cycle_steps visit idle s h going = ground (arith, going refl)
  advance-cycle_steps visit (lists pending) s h going = ground arith
  advance-cycle_steps visit (visits nodes []) s h going = (refl, omega arith)
  advance-cycle_steps visit (visits nodes ((name, pending) ∷ rest)) s h going =
      elim (Option-cases (pool_by_name c name)) [
        | inl missing ↦ rw (missing, advance) (refl, omega arith)
        | inr (pool, found) ↦
            let (t, w) = ask H.now s.world in
            let (in_flight, u) = count name t s.creating in
            let few =
              nodes_to_create-pending pool.max_nodes (get_int name nodes) in_flight pending in
            rw (found, advance) (refl, omega (arith, few))
      ]
  advance-cycle_steps visit (starts nodes rest name pool zero) s h going = (refl, omega arith)
  advance-cycle_steps visit (starts nodes rest name pool (suc n)) s h going = (refl, omega arith)

  -- Whatever others change in front of its steps, a scale-up cycle that has counted is over after
  -- `cycle_steps` steps: two for each pool that it has yet to visit, one for each pending pod of these,
  -- and where it is starting nodes of a pool, one for each that is left, and one or two more.
  pub drive-idle :
      (visit : Dict ℕ → Dict ℕ) (fs : List (Controller H o c → Controller H o c))
      (p : Phase Selector) (s : Controller H o c)
      → has_counted p ≡ true
      → cycle_steps p ≤ length fs
      → (drive visit fs p s).0 ≡ idle
  unfolding drive
  drive-idle visit fs idle s h enough = refl
  drive-idle visit fs (lists pending) s h enough = ground arith
  drive-idle visit [] (visits nodes rest) s h enough = ground arith
  drive-idle visit [] (starts nodes rest name pool n) s h enough = ground arith
  drive-idle visit (f ∷ fs) (visits nodes rest) s h enough =
      let (q, t) = advance H o c visit (visits nodes rest) (f s) in
      let (counted, fewer) = advance-cycle_steps visit (visits nodes rest) (f s) h (λ e. cc) in
      drive-idle visit fs q t counted (omega (arith, fewer))
  drive-idle visit (f ∷ fs) (starts nodes rest name pool n) s h enough =
      let at : Phase Selector = starts nodes rest name pool n in
      let (q, t) = advance H o c visit at (f s) in
      let (counted, fewer) = advance-cycle_steps visit at (f s) h (λ e. cc) in
      drive-idle visit fs q t counted (omega (arith, fewer))
