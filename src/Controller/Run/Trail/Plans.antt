-- ===== src/Controller/Run/Trail/Plans.antt =====
-- The room of the pools while the scale-up cycles of internal/controller/scale_up.go run between the
-- steps of the creations.
use kamatera_autoscaler.Base.{
  ℕ, zero, suc, ◌+◌, ◌≤◌, pos, ◌≤ℤ◌, String, ◌==◌, List, [], ◌∷◌, ◌++◌, if◌then◌else◌, some, ◌≡◌,
  ◌⊎◌, inl, inr, arith, sym, ap, ◌∙◌, Result-cases, Option-cases,
}
use mathlib.Core.Option.{some-injective}
use kamatera_autoscaler.Base.Dict.{Dict, get_int}
use kamatera_autoscaler.Config.{Config, Pool, pool_by_name}
use kamatera_autoscaler.Controller.Host.{Host, World, ask}
use kamatera_autoscaler.Controller.Options.{Options, new_tracker}
use kamatera_autoscaler.Controller.Pending.{remove, entries_for, count}
use kamatera_autoscaler.Controller.Pending.Laws.{entries_for-count, entries_for-erase-le}
use kamatera_autoscaler.Controller.ScaleUp.{nodes_to_create}
use kamatera_autoscaler.Controller.ScaleUp.Bounds.{start_node-held, nodes_to_create_bound}
use kamatera_autoscaler.Controller.ScaleUp.Create.{request_node}
use kamatera_autoscaler.Controller.Run.{Controller, new_controller, request_creation, end_creation}
use kamatera_autoscaler.Controller.Run.Backed.{run_scale_down_same}
use kamatera_autoscaler.Controller.Run.Trail.{
  Phase, idle, lists, visits, starts, start_next, advance, Move, scales_up, scales_down, requests,
  finishes, Trail, begins, moves,
}

module _ (H : Host) (o : Options) (c : Config H.labels.Selector H.Template) where
  open H use {Outside, cluster, now, labels.{Selector}}

  -- The nodes that a cycle has still to start for a pool.
  abbrev pub ahead : String → Phase Selector → ℕ
  ahead q idle = 0
  ahead q (lists pending) = 0
  ahead q (visits nodes rest) = 0
  ahead q (starts nodes rest name pool n) = if name == q then n else 0

  abbrev pub flying : String → Controller H o c → ℕ
  flying q s = entries_for q s.creating.entries

  -- A cycle that starts nodes of a pool does so for a configured one. With the nodes that it listed and
  -- those in flight, the nodes that it has still to start fit the pool.
  abbrev pub Plan : Phase Selector → Controller H o c → Type 0
  Plan idle s = Unit
  Plan (lists pending) s = Unit
  Plan (visits nodes rest) s = Unit
  Plan (starts nodes rest name pool n) s =
      (pool_by_name c name ≡ some pool)
      × ((n ≡ 0) ⊎ (pos (get_int name nodes + flying name s + n) ≤ℤ pool.max_nodes))

  pub record IsPlanned (x : Phase Selector × Controller H o c) : Type 0 where
    pub plan : Plan x.0 x.1
    -- The nodes in flight and those to start fit every configured pool.
    pub fits :
        (q : String) (pool : Pool Selector)
        → pool_by_name c q ≡ some pool
        → pos 0 ≤ℤ pool.max_nodes
        → pos (flying q x.1 + ahead q x.0) ≤ℤ pool.max_nodes

  fewer-Plan :
      (p : Phase Selector) (s t : Controller H o c)
      → ((q : String) → flying q t ≤ flying q s)
      → Plan p s
      → Plan p t
  fewer-Plan idle s t few h = tt
  fewer-Plan (lists pending) s t few h = tt
  fewer-Plan (visits nodes rest) s t few h = tt
  fewer-Plan (starts nodes rest name pool n) s t few (found, h) = (found, ground (arith, few name))

  -- Where fewer nodes are in flight, there is still room.
  fewer-IsPlanned :
      (p : Phase Selector) (s t : Controller H o c)
      → ((q : String) → flying q t ≤ flying q s)
      → IsPlanned (p, s)
      → IsPlanned (p, t)
  fewer-IsPlanned p s t few i = record {
    plan = fewer-Plan p s t few i.plan;
    fits = λ q pool found room. omega (arith, few q, i.fits q pool found room);
  }

  start_next-flying :
      (name q : String) (pool : Pool Selector) (s : Controller H o c)
      → flying q (start_next H o c name pool s) ≤ (if name == q then 1 else 0) + flying q s
  unfolding start_next
  start_next-flying name q pool s = start_node-held H name q pool _

  -- A pool that a cycle visits.
  visit-IsPlanned :
      (name : String) (pending : ℕ) (nodes rest : Dict ℕ) (pool : Pool Selector)
      (s : Controller H o c)
      → pool_by_name c name ≡ some pool
      → IsPlanned (visits nodes ((name, pending) ∷ rest), s)
      → let (t, w) = ask now s.world in
        let (in_flight, u) = count name t s.creating in
        let n = nodes_to_create pool.max_nodes (get_int name nodes) in_flight pending in
        IsPlanned (starts nodes rest name pool n, record s { creating = u; world = w })
  visit-IsPlanned name pending nodes rest pool s found i =
      let (t, w) = ask now s.world in
      let (in_flight, u) = count name t s.creating in
      let bound = nodes_to_create_bound pool.max_nodes (get_int name nodes) in_flight pending in
      record {
        plan = (found, ground (arith, bound, entries_for-count name name t s.creating));
        fits = λ q of listed room.
            let same : (name ≡ q) → (pool.max_nodes ≡ of.max_nodes) = λ e.
              ap (λ (r : Pool Selector). r.max_nodes)
                (some-injective pool of (sym found ∙ (ap (pool_by_name c) e ∙ listed))) in
            ground
              (arith, bound, entries_for-count name q t s.creating, i.fits q of listed room, same);
      }

  advance-IsPlanned :
      (visit : Dict ℕ → Dict ℕ) (p : Phase Selector) (s : Controller H o c)
      → IsPlanned (p, s)
      → IsPlanned (advance H o c visit p s)
  unfolding advance
  advance-IsPlanned visit idle s i = elim (Result-cases (ask cluster.list_pending_pods s.world).0) [
    | inl (pods, e) ↦ rw (e, advance) (record { plan = tt; fits = i.fits })
    | inr (x, e) ↦ rw (e, advance) (record { plan = tt; fits = i.fits })
  ]
  advance-IsPlanned visit (lists pending) s i =
      elim (Result-cases (ask cluster.list_nodes s.world).0) [
        | inl (nodes, e) ↦ rw (e, advance) (record { plan = tt; fits = i.fits })
        | inr (x, e) ↦ rw (e, advance) (record { plan = tt; fits = i.fits })
      ]
  advance-IsPlanned visit (visits nodes []) s i = record { plan = tt; fits = i.fits }
  advance-IsPlanned visit (visits nodes ((name, pending) ∷ rest)) s i =
      elim (Option-cases (pool_by_name c name)) [
        | inl missing ↦ rw (missing, advance) (record { plan = tt; fits = i.fits })
        | inr (pool, found) ↦
            rw (found, advance) (visit-IsPlanned name pending nodes rest pool s found i)
      ]
  advance-IsPlanned visit (starts nodes rest name pool zero) s i = record {
    plan = tt;
    fits = λ q of found room. ground (arith, i.fits q of found room);
  }
  advance-IsPlanned visit (starts nodes rest name pool (suc n)) s i = record {
    plan = (i.plan.0, ground (arith, i.plan.1, start_next-flying name name pool s));
    fits =
        λ q of found room. ground (arith, start_next-flying name q pool s, i.fits q of found room);
  }

  request_creation-flying :
      (of : Pool Selector) (name : String) (rest : List (Pool Selector × String))
      (s : Controller H o c) (q : String)
      → flying q (request_creation H o c of name rest s) ≤ flying q s
  unfolding request_creation remove
  request_creation-flying of name rest s q =
      elim (Result-cases (request_node H c of name s.world).0) [
        | inl (cmd_id, e) ↦ rw (e, request_creation) (omega arith)
        | inr (x, e) ↦ rw (e, request_creation) (entries_for-erase-le q name s.creating.entries)
      ]

  Move-IsPlanned :
      (p q : Phase Selector) (s t : Controller H o c)
      → Move H o c p q s t
      → IsPlanned (p, s)
      → IsPlanned (q, t)
  unfolding end_creation remove
  Move-IsPlanned p q s t (scales_up visit e) i = rw e (advance-IsPlanned visit p s i)
  Move-IsPlanned p q s t (scales_down fuel e f h) i = rw (f) (
      fewer-IsPlanned idle s t (λ k. rw ((run_scale_down_same H o c fuel s t h).0) (omega arith))
        (rw (← e) i))
  Move-IsPlanned p q s t (requests before after pool name e l h) i =
      rw (e, h) (fewer-IsPlanned p s _ (request_creation-flying pool name (before ++ after) s) i)
  Move-IsPlanned p q s t (finishes before after pool name cmd_id e l h) i =
      rw (e, h) (fewer-IsPlanned p s _ (λ k. entries_for-erase-le k name s.creating.entries) i)

  pub Trail-IsPlanned :
      (w : World Outside) (p : Phase Selector) (s : Controller H o c)
      → Trail H o c w p s
      → IsPlanned (p, s)
  unfolding new_controller new_tracker entries_for
  Trail-IsPlanned w p s (begins visit q t e) = rw e (
      advance-IsPlanned visit idle (new_controller H o c w)
        (record { plan = tt; fits = λ q pool found room. room }))
  Trail-IsPlanned w q t (moves {p} {s} r m) = Move-IsPlanned p q s t m (Trail-IsPlanned w p s r)

  -- A cycle that is about to start nodes of a pool does so for a configured pool. Whatever steps of
  -- creations came since it counted, it has none left to start, or the nodes that it listed, those in
  -- flight and those that it has left to start fit the pool's `max_nodes`.
  pub starts_keep_max :
      (w : World Outside) (s : Controller H o c) (nodes rest : Dict ℕ) (name : String)
      (pool : Pool Selector) (n : ℕ)
      → Trail H o c w (starts nodes rest name pool n) s
      → (pool_by_name c name ≡ some pool)
        × ((n ≡ 0)
            ⊎ (pos (get_int name nodes + entries_for name s.creating.entries + n)
                ≤ℤ pool.max_nodes))
  starts_keep_max w s nodes rest name pool n r =
      (Trail-IsPlanned w (starts nodes rest name pool n) s r).plan
