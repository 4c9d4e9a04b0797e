-- ===== src/Controller/Drain/Ends.antt =====
-- A drain (internal/controller/drain.go) ends: its clock reaches the deadline.
use kamatera_autoscaler.Base.{
  Later, ℕ, zero, suc, ◌+◌, ◌*◌, ◌<◌, ℤ, pos, pos_part, neg_part, ◌+ℤ◌, +ℤ_parts, Bool, true, false,
  String, List, [], ◌∷◌, none, ◌≡◌, arith, inl, inr, Result-cases, ◌≢◌,
}
use kamatera_autoscaler.Kube.{Pod}
use kamatera_autoscaler.Controller.Host.{Host, World, ask, change, cordons, evicts}
use kamatera_autoscaler.Controller.Drain.{
  again, backoff, filter_evictable, evict_all, evict_pass, drain_pass, drain_loop, drain_node,
}
use kamatera_autoscaler.Controller.Drain.Outcome.{Pass-cases}

-- What a clock does: it shows the time, calls take no time back, and a wait that is not cut short
-- lasts at least as long as was asked for.
pub record KeepsTime (H : Host) : Type 0 where
  pub time : H.Outside → ℤ
  pub now_shows : (o : H.Outside) → (H.now o).0 ≡ time o
  pub now_keeps : (o : H.Outside) → Later 0 (time o) (time (H.now o).1)
  pub list_keeps :
      (n : String) (o : H.Outside) → Later 0 (time o) (time (H.cluster.list_pods_on_node n o).1)
  pub evict_keeps : (p : Pod) (o : H.Outside) → Later 0 (time o) (time (H.cluster.evict p o).1)
  pub pause_waits :
      (k : ℕ) (o : H.Outside)
      → (H.pause (pos k) o).0 ≡ none
      → Later k (time o) (time (H.pause (pos k) o).1)

module _ (H : Host) (C : KeepsTime H) where
  open H use {Outside, Failure, cluster, now, pause}
  open C use {time}

  evict_all-Later :
      (ps : List Pod) (blocked : Bool) (w : World Outside)
      → Later 0 (time w.outside) (time (evict_all H ps blocked w).1.outside)
  unfolding evict_all
  evict_all-Later [] blocked w = omega arith
  evict_all-Later (p ∷ ps) blocked w =
      let w1 = (change (evicts p) (cluster.evict p) w).1 in
      ground (
        arith,
        C.evict_keeps p w.outside,
        evict_all-Later ps blocked w1,
        evict_all-Later ps true w1,
      )

  evict_pass_again :
      (ps : List Pod) (w w' : World Outside)
      → evict_pass H ps w ≡ again w'
      → Later 2000000000 (time w.outside) (time w'.outside)
  unfolding evict_pass backoff
  evict_pass_again [] w w' h = ground arith
  evict_pass_again (p ∷ ps) w w' h =
      let w1 = (evict_all H (p ∷ ps) false w).1 in
      ground (
        arith,
        evict_all-Later (p ∷ ps) false w,
        C.pause_waits 2000000000 w1.outside,
        C.pause_waits 5000000000 w1.outside,
      )

  -- A pass that asks for another one began before the deadline and took two seconds.
  drain_pass_again :
      (node_name : String) (deadline : ℤ) (w w' : World Outside)
      → drain_pass H node_name deadline w ≡ again w'
      → Later 0 (time w.outside) deadline × Later 2000000000 (time w.outside) (time w'.outside)
  unfolding drain_pass
  drain_pass_again node_name deadline w w' h =
      let (t, w1) = ask now w in
      let (r, w2) = ask (cluster.list_pods_on_node node_name) w1 in
      elim (Result-cases r) [
        | inl (ps, e) ↦ ground (
          arith,
          C.now_shows w.outside,
          C.now_keeps w.outside,
          C.list_keeps node_name w1.outside,
          evict_pass_again (filter_evictable ps) w2 w',
        )
        | inr (x, e) ↦ ground arith
      ]

  -- So many passes of two seconds reach beyond the deadline.
  abbrev pub Covers : ℕ → ℤ → ℤ → Type 0
  Covers fuel now deadline =
      pos_part deadline + neg_part now < pos_part now + 2000000000 * fuel + neg_part deadline

  Covers-timeout :
      (seconds fuel : ℕ) (a b t : ℤ)
      → seconds < 2 * fuel
      → t ≡ a
      → Later 0 a b
      → Covers fuel b (t +ℤ pos (1000000000 * seconds))
  Covers-timeout seconds fuel a b t h e l =
      rw e (omega (arith, +ℤ_parts a (pos (1000000000 * seconds))))

  drain_loop_ends :
      (fuel : ℕ) (node_name : String) (deadline : ℤ) (w : World Outside)
      → Covers fuel (time w.outside) deadline
      → drain_loop H (suc fuel) node_name deadline w ≢ none
  unfolding drain_loop
  drain_loop_ends zero node_name deadline w h =
      elim (Pass-cases (drain_pass H node_name deadline w)) [
        | inl (v, e) ↦ ground arith
        | inr (inl (x, v, e)) ↦ ground arith
        | inr (inr (v, e)) ↦ absurd (omega (arith, drain_pass_again node_name deadline w v e))
      ]
  drain_loop_ends (suc fuel) node_name deadline w h =
      elim (Pass-cases (drain_pass H node_name deadline w)) [
        | inl (v, e) ↦ ground arith
        | inr (inl (x, v, e)) ↦ ground arith
        | inr (inr (v, e)) ↦ ground (
          arith,
          drain_pass_again node_name deadline w v e,
          drain_loop_ends fuel node_name deadline v,
        )
      ]

  -- With a clock that keeps time, a drain with a timeout of so many seconds ends: one more than a number
  -- above half the seconds is enough fuel.
  pub drain_node_ends :
      (seconds fuel : ℕ) (node_name : String) (w : World Outside)
      → seconds < 2 * fuel
      → drain_node H (suc fuel) node_name (pos (1000000000 * seconds)) w ≢ none
  unfolding drain_node
  drain_node_ends seconds fuel node_name w h =
      let (c, w1) = change (cordons node_name) (cluster.cordon node_name) w in
      let (t, w2) = ask now w1 in
      let timeout = pos (1000000000 * seconds) in
      elim (Result-cases c) [
        | inl (_, e) ↦
            let covered : Covers fuel (time w2.outside) (t +ℤ timeout) =
              Covers-timeout seconds fuel (time w1.outside) (time w2.outside) t h
                (C.now_shows w1.outside) (C.now_keeps w1.outside) in
            ground (arith, drain_loop_ends fuel node_name (t +ℤ timeout) w2 covered)
        | inr (x, e) ↦ ground arith
      ]
