-- ===== src/Controller/Run/Trail/Requests.antt =====
-- The servers that the loop of internal/controller/controller.go asks for.
use kamatera_autoscaler.Base.{
  ℕ, zero, suc, ◌+◌, ◌≤◌, Bool, true, false, if◌then◌else◌, String, List, [], ◌∷◌, ◌++◌, count_if,
  count_if-append, ◌&&◌, ◌==◌, some, ◌≡◌, subst, sym, ap, arith, inl, inr, Result-cases,
  Option-cases, Bool-cases,
}
use kamatera_autoscaler.Base.Dict.{Dict}
use kamatera_autoscaler.Config.{Config, Pool, pool_by_name}
use kamatera_autoscaler.Controller.Host.{Host, World}
use kamatera_autoscaler.Controller.Options.{Options, resolve}
use kamatera_autoscaler.Controller.ScaleDown.{scale_down}
use kamatera_autoscaler.Controller.ScaleDown.Creations.{creations_of, scale_down-creations}
use kamatera_autoscaler.Controller.ScaleUp.{Cycle, start_node, generate_node_name}
use kamatera_autoscaler.Controller.ScaleUp.Starts.{is_taken}
use kamatera_autoscaler.Controller.ScaleUp.Create.{create_request, request_node, await_node}
use kamatera_autoscaler.Controller.Run.{
  Controller, new_controller, run_scale_down, request_creation, end_creation,
}
use kamatera_autoscaler.Controller.Run.Trail.{
  Phase, idle, lists, visits, starts, start_next, advance, scales_up, scales_down, requests,
  finishes, Trail, begins, moves,
}

module _ (H : Host) (o : Options) (c : Config H.labels.Selector H.Template) where
  open H use {Outside, labels.{Selector}}

  -- How many nodes of a name the next step of a cycle starts: one where that is the name it generates and
  -- the tracker takes it.
  abbrev starts_of : String → Phase Selector → Controller H o c → ℕ
  starts_of k idle s = 0
  starts_of k (lists pending) s = 0
  starts_of k (visits nodes rest) s = 0
  starts_of k (starts nodes rest name pool zero) s = 0
  starts_of k (starts nodes rest name pool (suc n)) s =
      let cycle : Cycle H = record {
        creating = s.creating;
        started = s.creations;
        world = s.world;
      } in
      if is_taken H name cycle && ((generate_node_name H name s.world).0 == k) then 1 else 0

  -- The nodes of a name that the cycles of a trail have started.
  abbrev pub started_as :
      {w : World Outside} {p : Phase Selector} {s : Controller H o c}
      → String
      → Trail H o c w p s
      → ℕ
  started_as k (begins visit q t e) = 0
  started_as k (moves {p} {s} r (scales_up visit e)) = starts_of k p s + started_as k r
  started_as k (moves r (scales_down fuel e f h)) = started_as k r
  started_as k (moves r (requests before after pool name e l h)) = started_as k r
  started_as k (moves r (finishes before after pool name cmd_id e l h)) = started_as k r

  -- The creations of a name.
  abbrev pub named : String → List (Pool Selector × String) → ℕ
  named k xs = count_if (λ (_, n). n == k) xs

  -- The requests for a server of a name, and its creations that have not sent theirs.
  abbrev asked : String → Controller H o c → ℕ
  asked k s = creations_of k s.world + named k s.creations

  named-append :
      (k : String) (b : Bool) (xs : List (Pool Selector × String)) (pool : Pool Selector)
      (name : String)
      → named k (if b then xs ++ ((pool, name) ∷ []) else xs)
        ≡ (if b && (name == k) then 1 else 0) + named k xs
  named-append k true xs pool name =
      ground (arith, count_if-append (λ (_, n). n == k) xs ((pool, name) ∷ []))
  named-append k false xs pool name = omega arith

  start_next-asked :
      (k name : String) (nodes rest : Dict ℕ) (pool : Pool Selector) (n : ℕ) (s : Controller H o c)
      → asked k (start_next H o c name pool s)
        ≡ starts_of k (starts nodes rest name pool (suc n)) s + asked k s
  unfolding start_next start_node
  start_next-asked k name nodes rest pool n s =
      let cycle : Cycle H = record {
        creating = s.creating;
        started = s.creations;
        world = s.world;
      } in
      let node_name = (generate_node_name H name s.world).0 in
      omega (arith, named-append k (is_taken H name cycle) s.creations pool node_name)

  advance-asked :
      (k : String) (visit : Dict ℕ → Dict ℕ) (p : Phase Selector) (s : Controller H o c)
      → asked k (advance H o c visit p s).1 ≡ starts_of k p s + asked k s
  unfolding advance
  advance-asked k visit idle s = omega arith
  advance-asked k visit (lists pending) s = omega arith
  advance-asked k visit (visits nodes []) s = omega arith
  advance-asked k visit (visits nodes ((name, pending) ∷ rest)) s =
      elim (Option-cases (pool_by_name c name)) [
        | inl missing ↦ rw (missing, advance) (omega arith)
        | inr (pool, found) ↦ rw (found, advance) (omega arith)
      ]
  advance-asked k visit (starts nodes rest name pool zero) s = omega arith
  advance-asked k visit (starts nodes rest name pool (suc n)) s =
      start_next-asked k name nodes rest pool n s

  -- The request of a creation is one for its name.
  request_node-creations :
      (k name : String) (pool : Pool Selector) (w : World Outside)
      → creations_of k (request_node H c pool name w).1
        ≤ (if name == k then 1 else 0) + creations_of k w
  unfolding request_node create_request
  request_node-creations k name pool w = ground arith

  request_creation-asked :
      (k name : String) (pool : Pool Selector) (before after : List (Pool Selector × String))
      (s : Controller H o c)
      → s.creations ≡ before ++ (pool, name) ∷ after
      → asked k (request_creation H o c pool name (before ++ after) s) ≤ asked k s
  unfolding request_creation
  request_creation-asked k name pool before after s l =
      let is_named = λ (x : Pool Selector × String). x.1 == k in
      let once = request_node-creations k name pool s.world in
      let left = count_if-append is_named before after in
      let all = count_if-append is_named before ((pool, name) ∷ after) in
      let same = ap (named k) l in
      elim (Result-cases (request_node H c pool name s.world).0) [
        | inl (cmd_id, e) ↦ rw (e, request_creation) (ground (arith, once, left, all, same))
        | inr (x, e) ↦ rw (e, request_creation) (ground (arith, once, left, all, same))
      ]

  run_scale_down-asked :
      (k : String) (fuel : ℕ) (s t : Controller H o c)
      → run_scale_down H o c fuel s ≡ some t
      → asked k t ≡ asked k s
  unfolding run_scale_down
  run_scale_down-asked k fuel s t h = elim (Bool-cases s.scale_down_in_progress) [
    | inl held ↦ ground arith
    | inr free ↦ elim (Option-cases (scale_down H (resolve o) fuel c s.world)) [
      | inl e ↦ ground arith
      | inr ((x, sweep), e) ↦
          ground (arith, scale_down-creations H (resolve o) k fuel c s.world x sweep e)
    ]
  ]

  -- In a run of the loop, whatever comes within its scale-up cycles, the requests for a server of a name
  -- and the creations of the name that have not sent theirs are together no more than the requests from
  -- before the run and the times that a cycle generated the name and the tracker took it. A start that
  -- the tracker refused counts for nothing.
  pub Trail-asked :
      (k : String) (w : World Outside) (p : Phase Selector) (s : Controller H o c)
      (r : Trail H o c w p s)
      → creations_of k s.world + named k s.creations ≤ creations_of k w + started_as k r
  unfolding new_controller end_creation await_node
  Trail-asked k w p s (begins visit q t e) =
      subst (λ x. asked k x.1 ≤ creations_of k w + 0) (sym e)
        (omega (arith, advance-asked k visit idle (new_controller H o c w)))
  Trail-asked k w q t (moves {p} {s} r (scales_up visit e)) =
      subst (λ x. asked k x.1 ≤ creations_of k w + (starts_of k p s + started_as k r)) (sym e)
        (omega (arith, advance-asked k visit p s, Trail-asked k w p s r))
  Trail-asked k w q t (moves {p} {s} r (scales_down fuel e f h)) =
      omega (arith, run_scale_down-asked k fuel s t h, Trail-asked k w p s r)
  Trail-asked k w q t (moves {p} {s} r (requests before after pool name e l h)) =
      rw h
        (omega (arith, request_creation-asked k name pool before after s l, Trail-asked k w p s r))
  Trail-asked k w q t (moves {p} {s} r (finishes before after pool name cmd_id e l h)) =
      rw h (Trail-asked k w p s r)
