-- ===== src/Controller/Drain/Trace.antt =====
-- What a drain (internal/controller/drain.go) changes outside: it cordons its node and evicts pods
-- that may be evicted, and nothing else.
use kamatera_autoscaler.Base.{
  ℕ, zero, suc, ℤ, ◌+ℤ◌, ltb_ℤ, Bool, true, false, String, ◌==◌, ==_self, List, [], ◌∷◌, ◌++◌, All,
  All-append, some, Result, ◌≡◌, refl, arith, ◌⊎◌, inl, inr, ap, ◌∙◌, sym, Result-cases, Bool-cases,
}
use mathlib.Core.List.{append_assoc}
use kamatera_autoscaler.Kube.{Pod}
use kamatera_autoscaler.Controller.Host.{
  Host, World, Event, Change, cordons, evicts, deletes, creates, terminates, ask, change,
}
use kamatera_autoscaler.Controller.Drain.{
  DrainError, Pass, drained, failed, again, filter_evictable, evict_all, evict_pass, drain_pass,
  drain_loop, drain_node,
}
use kamatera_autoscaler.Controller.Drain.Outcome.{Pass-cases}
use kamatera_autoscaler.Controller.Drain.Evictable.{can_evict, filter_evictable-All}

-- The events of the second world are those of the first and some new ones, which all pass the test.
pub record Adds {O : Type 0} (test : Change → Bool) (w w' : World O) : Type 0 where
  pub new : List Event
  pub split : w'.trace ≡ new ++ w.trace
  pub passed : All (λ e. test e.change ≡ true) new

module _ {O : Type 0} (test : Change → Bool) where
  pub Adds-refl : (w w' : World O) → w'.trace ≡ w.trace → Adds test w w'
  Adds-refl w w' e = record { new = []; split = e; passed = tt }

  pub Adds-trans : {u v w : World O} → Adds test u v → Adds test v w → Adds test u w
  Adds-trans {u} a b = record {
    new = b.new ++ a.new;
    split = b.split ∙ (ap (λ t. b.new ++ t) a.split ∙ sym (append_assoc b.new a.new u.trace));
    passed = All-append _ b.new a.new b.passed a.passed;
  }

-- What a drain of the node may change.
abbrev pub is_drain_change : String → Change → Bool
is_drain_change node_name (cordons n) = n == node_name
is_drain_change node_name (evicts p) = can_evict p
is_drain_change node_name (deletes n) = false
is_drain_change node_name (creates r) = false
is_drain_change node_name (terminates id) = false

module _ (H : Host) (node_name : String) where
  open H use {Outside, Failure, cluster, now}

  abbrev Drains : World Outside → World Outside → Type 0
  Drains = Adds (is_drain_change node_name)

  -- A pass of the eviction loop goes on after the eviction, or stops there.
  evict_all-cons :
      (p : Pod) (ps : List Pod) (blocked : Bool) (w : World Outside)
      → let w1 = (change (evicts p) (cluster.evict p) w).1 in
        ((evict_all H (p ∷ ps) blocked w).1 ≡ (evict_all H ps blocked w1).1)
        ⊎ (((evict_all H (p ∷ ps) blocked w).1 ≡ (evict_all H ps true w1).1)
            ⊎ ((evict_all H (p ∷ ps) blocked w).1 ≡ w1))
  unfolding evict_all
  evict_all-cons p ps blocked w = ground arith

  evict_all-Drains :
      (ps : List Pod) (blocked : Bool) (w : World Outside)
      → All (λ p. can_evict p ≡ true) ps
      → Drains w (evict_all H ps blocked w).1
  evict_all-Drains [] blocked w h = unfold evict_all in Adds-refl _ w w refl
  evict_all-Drains (p ∷ ps) blocked w (hp, h) =
      let w1 = (change (evicts p) (cluster.evict p) w).1 in
      let evicted : Drains w w1 = record {
        new = record { change = evicts p; succeeded = _ } ∷ [];
        split = refl;
        passed = (hp, tt);
      } in
      elim (evict_all-cons p ps blocked w) [
        | inl e ↦ rw e (Adds-trans _ evicted (evict_all-Drains ps blocked w1 h))
        | inr (inl e) ↦ rw e (Adds-trans _ evicted (evict_all-Drains ps true w1 h))
        | inr (inr e) ↦ rw e evicted
      ]

  -- The world in which a pass ends.
  abbrev world_of : Pass Failure (World Outside) → World Outside
  world_of (drained w) = w
  world_of (failed e w) = w
  world_of (again w) = w

  evict_pass_trace :
      (ps : List Pod) (w : World Outside)
      → (world_of (evict_pass H ps w)).trace ≡ (evict_all H ps false w).1.trace
  unfolding evict_pass evict_all
  evict_pass_trace [] w = refl
  evict_pass_trace (p ∷ ps) w = ground arith

  drain_pass_trace :
      (deadline : ℤ) (w : World Outside)
      → ((world_of (drain_pass H node_name deadline w)).trace ≡ w.trace)
        ⊎ ((ps : List Pod) × (v : World Outside) × (v.trace ≡ w.trace)
            × ((world_of (drain_pass H node_name deadline w)).trace
                ≡ (evict_all H (filter_evictable ps) false v).1.trace))
  unfolding drain_pass
  drain_pass_trace deadline w =
      let (t, w1) = ask now w in
      let (r, w2) = ask (cluster.list_pods_on_node node_name) w1 in
      elim (Result-cases r) [
        | inl (ps, e) ↦ elim (Bool-cases (ltb_ℤ deadline t)) [
          | inl late ↦ inl (ground arith)
          | inr early ↦
              inr (ps, w2, refl, ground (arith, evict_pass_trace (filter_evictable ps) w2))
        ]
        | inr (x, e) ↦ inl (ground arith)
      ]

  Adds-of_trace :
      (test : Change → Bool) (u v w : World Outside)
      → w.trace ≡ v.trace
      → Adds test u v
      → Adds test u w
  Adds-of_trace test u v w e a = record { new = a.new; split = e ∙ a.split; passed = a.passed }

  drain_pass-Drains :
      (deadline : ℤ) (w : World Outside) → Drains w (world_of (drain_pass H node_name deadline w))
  drain_pass-Drains deadline w =
      let w' = world_of (drain_pass H node_name deadline w) in
      elim (drain_pass_trace deadline w) [
        | inl e ↦ Adds-refl _ w w' e
        | inr (ps, v, same, e) ↦ Adds-of_trace _ w _ w' e (
            Adds-trans _ (Adds-refl _ w v same)
              (evict_all-Drains (filter_evictable ps) false v (filter_evictable-All ps)))
      ]

  drain_loop-Drains :
      (fuel : ℕ) (deadline : ℤ) (w w' : World Outside) (r : Result (DrainError Failure) (Unit {0}))
      → drain_loop H fuel node_name deadline w ≡ some (r, w')
      → Drains w w'
  unfolding drain_loop
  drain_loop-Drains zero deadline w w' r h = cc
  drain_loop-Drains (suc fuel) deadline w w' r h =
      let pass = drain_pass-Drains deadline w in
      elim (Pass-cases (drain_pass H node_name deadline w)) [
        | inl (v, e) ↦ Adds-of_trace _ w v w' (ground arith) (rw e at pass)
        | inr (inl (x, v, e)) ↦ Adds-of_trace _ w v w' (ground arith) (rw e at pass)
        | inr (inr (v, e)) ↦
            Adds-trans _ (rw e at pass) (drain_loop-Drains fuel deadline v w' r (ground arith))
      ]

  -- Whatever a drain reports, it has cordoned no other node, evicted only pods that may be evicted,
  -- and terminated, deleted and created nothing.
  pub drain_node-Drains :
      (fuel : ℕ) (timeout : ℤ) (w w' : World Outside) (r : Result (DrainError Failure) (Unit {0}))
      → drain_node H fuel node_name timeout w ≡ some (r, w')
      → Drains w w'
  unfolding drain_node
  drain_node-Drains fuel timeout w w' r h =
      let (c, w1) = change (cordons node_name) (cluster.cordon node_name) w in
      let (t, w2) = ask now w1 in
      let cordoned : Drains w w1 = record {
        new = record { change = cordons node_name; succeeded = _ } ∷ [];
        split = refl;
        passed = (==_self node_name, tt);
      } in
      elim (Result-cases c) [
        | inl (_, e) ↦ Adds-trans _ cordoned (
            Adds-trans _ (Adds-refl _ w1 w2 refl)
              (drain_loop-Drains fuel (t +ℤ timeout) w2 w' r (ground arith)))
        | inr (x, e) ↦ Adds-of_trace _ w w1 w' (ground arith) cordoned
      ]
