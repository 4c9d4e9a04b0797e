-- ===== src/Controller/Run/Trail/Whole.antt =====
-- The runs of internal/controller/controller.go whose scale-up cycles have no steps of others between
-- theirs.
use kamatera_autoscaler.Base.{
  ℕ, zero, suc, String, List, [], ◌∷◌, some, none, ok, ◌≡◌, refl, inl, inr, subst, sym, ap, ◌∙◌,
  Result-cases, Option-cases,
}
use kamatera_autoscaler.Base.Dict.{Dict, get_int}
use kamatera_autoscaler.Config.{Config, Pool, pool_by_name}
use kamatera_autoscaler.Kube.{Pod}
use kamatera_autoscaler.Controller.Host.{Host, World, ask}
use kamatera_autoscaler.Controller.Match.{count_nodes_by_pool, group_pending_by_pool}
use kamatera_autoscaler.Controller.Options.{Options}
use kamatera_autoscaler.Controller.Pending.{count}
use kamatera_autoscaler.Controller.ScaleUp.{
  Cycle, start_nodes, scale_up_pool, scale_up_pools, scale_up, nodes_to_create,
}
use kamatera_autoscaler.Controller.Run.{
  Controller, new_controller, run_scale_up, up_tick, down_tick, creation_requests, creation_ends,
  Run, first, turn,
}
use kamatera_autoscaler.Controller.Run.Cycles.{append_nothing}
use kamatera_autoscaler.Controller.Run.Trail.{
  Phase, idle, lists, visits, starts, start_next, advance, scales_up, scales_down, requests,
  finishes, Trail, begins, moves,
}
use kamatera_autoscaler.Controller.Run.Trail.Behind.{behind, scale_up_pools-behind}

module _ (H : Host) (o : Options) (c : Config H.labels.Selector H.Template) where
  open H use {Outside, cluster, now, labels.{Selector}}

  abbrev cycle_of : Controller H o c → Cycle H
  cycle_of s = record { creating = s.creating; started = s.creations; world = s.world }

  abbrev behind_cycle : Controller H o c → Cycle H → Controller H o c
  behind_cycle s u = record s { creating = u.creating; creations = u.started; world = u.world }

  go_on :
      {w : World Outside} {p : Phase Selector} {s : Controller H o c} (visit : Dict ℕ → Dict ℕ)
      → Trail H o c w p s
      → let (q, t) = advance H o c visit p s in Trail H o c w q t
  go_on visit r = moves r (scales_up visit refl)

  starts-Trail :
      {w : World Outside} (visit : Dict ℕ → Dict ℕ) (nodes rest : Dict ℕ) (name : String)
      (pool : Pool Selector) (n : ℕ) (s : Controller H o c)
      → Trail H o c w (starts nodes rest name pool n) s
      → Trail H o c w (visits nodes rest) (behind_cycle s (start_nodes H n name pool (cycle_of s)))
  unfolding advance start_nodes start_next
  starts-Trail visit nodes rest name pool zero s r = go_on visit r
  starts-Trail visit nodes rest name pool (suc n) s r =
      starts-Trail visit nodes rest name pool n (start_next H o c name pool s) (go_on visit r)

  scale_up_pool-unknown :
      (nodes : Dict ℕ) (name : String) (pending : ℕ) (u : Cycle H)
      → pool_by_name c name ≡ none
      → scale_up_pool H c nodes (name, pending) u ≡ u
  unfolding scale_up_pool
  scale_up_pool-unknown nodes name pending u missing = rw (missing, scale_up_pool) refl

  scale_up_pool-known :
      (nodes : Dict ℕ) (name : String) (pending : ℕ) (pool : Pool Selector) (u : Cycle H)
      → pool_by_name c name ≡ some pool
      → let (t, w) = ask now u.world in
        let (in_flight, creating) = count name t u.creating in
        scale_up_pool H c nodes (name, pending) u
        ≡ start_nodes H
            (nodes_to_create pool.max_nodes (get_int name nodes) in_flight pending)
            name
            pool
            (record u { creating = creating; world = w })
  unfolding scale_up_pool
  scale_up_pool-known nodes name pending pool u found = rw (found, scale_up_pool) refl

  -- The pools that a cycle has still to visit, without a step of others.
  visits-Trail :
      {w : World Outside} (visit : Dict ℕ → Dict ℕ) (nodes ps : Dict ℕ) (s : Controller H o c)
      → Trail H o c w (visits nodes ps) s
      → Trail H o c w idle (behind_cycle s (scale_up_pools H c nodes ps (cycle_of s)))
  unfolding advance scale_up_pools
  visits-Trail visit nodes [] s r = go_on visit r
  visits-Trail {w} visit nodes ((name, pending) ∷ ps) s r =
      let whole =
        λ (u : Cycle H). Trail H o c w idle (behind_cycle s (scale_up_pools H c nodes ps u)) in
      let at : Phase Selector = visits nodes ((name, pending) ∷ ps) in
      elim (Option-cases (pool_by_name c name)) [
        | inl missing ↦
            let skipped : (visits nodes ps, s) ≡ advance H o c visit at s =
              rw (missing, advance) refl in
            subst whole (sym (scale_up_pool-unknown nodes name pending (cycle_of s) missing))
              (visits-Trail visit nodes ps s (moves r (scales_up visit skipped)))
        | inr (pool, found) ↦
            let (t, w1) = ask now s.world in
            let (in_flight, u) = count name t s.creating in
            let n = nodes_to_create pool.max_nodes (get_int name nodes) in_flight pending in
            let s0 : Controller H o c = record s { creating = u; world = w1 } in
            let visited : (starts nodes ps name pool n, s0) ≡ advance H o c visit at s =
              rw (found, advance) refl in
            subst whole (sym (scale_up_pool-known nodes name pending pool (cycle_of s) found)) (
              visits-Trail visit nodes ps (behind_cycle s (start_nodes H n name pool (cycle_of s0)))
                (starts-Trail visit nodes ps name pool n s0 (moves r (scales_up visit visited))))
      ]

  -- The pools of a cycle in front of which creations wait, against those of a cycle of its own.
  pools_behind :
      (nodes ps : Dict ℕ) (s : Controller H o c)
      → let fresh : Cycle H = record { creating = s.creating; started = []; world = s.world } in
        scale_up_pools H c nodes ps (cycle_of s)
        ≡ behind H c s.creations (scale_up_pools H c nodes ps fresh)
  pools_behind nodes ps s =
      let fresh : Cycle H = record { creating = s.creating; started = []; world = s.world } in
      ap (λ l. scale_up_pools H c nodes ps (record fresh { started = l }))
        (sym (append_nothing H c s.creations))
      ∙ scale_up_pools-behind H c nodes ps s.creations fresh

  move_on :
      {w : World Outside} {p q : Phase Selector} {s t : Controller H o c} (visit : Dict ℕ → Dict ℕ)
      → advance H o c visit p s ≡ (q, t)
      → Trail H o c w p s
      → Trail H o c w q t
  move_on visit e r = moves r (scales_up visit (sym e))

  -- A cycle behind the list of the pods.
  listed-Trail :
      {w : World Outside} (visit : Dict ℕ → Dict ℕ) (pending : List Pod) (s : Controller H o c)
      → let (pods, w1) = ask cluster.list_pending_pods s.world in
        (pods ≡ ok pending)
        → Trail H o c w (lists pending) (record s { world = w1 })
        → Trail H o c w idle (run_scale_up H o c visit s)
  unfolding advance run_scale_up scale_up
  listed-Trail {w} visit pending s listed r =
      let (pods, w1) = ask cluster.list_pending_pods s.world in
      let (nodes, w2) = ask cluster.list_nodes w1 in
      let s2 : Controller H o c = record s { world = w2 } in
      elim (Result-cases nodes) [
        | inr (e, failed) ↦
            let whole : run_scale_up H o c visit s ≡ s2 =
              rw (listed, failed, run_scale_up, scale_up)
                (ap (λ l. record s2 { creations = l }) (append_nothing H c s.creations)) in
            subst (Trail H o c w idle) (sym whole) (move_on visit (rw (failed, advance) refl) r)
        | inl (found, got) ↦
            let counted = count_nodes_by_pool found in
            let ps = visit (group_pending_by_pool H.labels pending c) in
            let whole : run_scale_up H o c visit s
                ≡ behind_cycle s2 (scale_up_pools H c counted ps (cycle_of s2)) =
              rw (listed, got, run_scale_up, scale_up)
                (ap (behind_cycle s2) (sym (pools_behind counted ps s2))) in
            let counting : Trail H o c w (visits counted ps) s2 =
              move_on visit (rw (got, advance) refl) r in
            subst (Trail H o c w idle) (sym whole) (visits-Trail visit counted ps s2 counting)
      ]

  -- A cycle that goes on from its first call without a step of others.
  cycle-Trail :
      {w : World Outside} (visit : Dict ℕ → Dict ℕ) (s : Controller H o c)
      → let (q, t) = advance H o c visit idle s in
        Trail H o c w q t → Trail H o c w idle (run_scale_up H o c visit s)
  unfolding advance run_scale_up scale_up
  cycle-Trail {w} visit s r =
      let here = λ (x : Phase Selector × Controller H o c). Trail H o c w x.0 x.1 in
      let (pods, w1) = ask cluster.list_pending_pods s.world in
      let s1 : Controller H o c = record s { world = w1 } in
      elim (Result-cases pods) [
        | inr (e, failed) ↦
            let next : advance H o c visit idle s ≡ (idle, s1) = rw (failed, advance) refl in
            let whole : run_scale_up H o c visit s ≡ s1 =
              rw (failed, run_scale_up, scale_up)
                (ap (λ l. record s1 { creations = l }) (append_nothing H c s.creations)) in
            subst (Trail H o c w idle) (sym whole) (subst here next r)
        | inl (pending, listed) ↦
            let next : advance H o c visit idle s ≡ (lists pending, s1) =
              rw (listed, advance) refl in
            listed-Trail visit pending s listed (subst here next r)
      ]

  -- A run of whole scale-up cycles is one in which no steps of creations come within them.
  pub Run-Trail : (w : World Outside) (s : Controller H o c) → Run H o c w s → Trail H o c w idle s
  Run-Trail w s (first visit s' e) =
      rw e (cycle-Trail visit (new_controller H o c w) (begins visit _ _ refl))
  Run-Trail w t (turn {s} r (up_tick visit e)) =
      rw e (cycle-Trail visit s (go_on visit (Run-Trail w s r)))
  Run-Trail w t (turn {s} r (down_tick fuel e)) =
      moves (Run-Trail w s r) (scales_down fuel refl refl e)
  Run-Trail w t (turn {s} r (creation_requests before after pool name l e)) =
      moves (Run-Trail w s r) (requests before after pool name refl l e)
  Run-Trail w t (turn {s} r (creation_ends before after pool name cmd_id l e)) =
      moves (Run-Trail w s r) (finishes before after pool name cmd_id refl l e)
