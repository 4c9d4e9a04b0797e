-- ===== src/Controller/Drain/Outcome.antt =====
-- What a drain that reports success or failure (internal/controller/drain.go) means.
use kamatera_autoscaler.Base.{
  ℕ, zero, suc, ℤ, ◌+ℤ◌, String, List, [], ◌∷◌, some, ok, ◌≡◌, refl, arith, ◌⊎◌, inl, inr,
  Result-cases,
}
use kamatera_autoscaler.Kube.{Pod}
use kamatera_autoscaler.Controller.Host.{Host, World, ask, change, cordons}
use kamatera_autoscaler.Controller.Drain.{
  DrainError, Pass, drained, failed, again, filter_evictable, evict_pass, drain_pass, drain_loop,
  drain_node,
}

pub Pass-cases :
    {E W : Type 0} (p : Pass E W)
    → ((w : W) × (p ≡ drained w))
      ⊎ (((e : DrainError E) × (w : W) × (p ≡ failed e w)) ⊎ ((w : W) × (p ≡ again w)))
Pass-cases (drained w) = inl (w, refl)
Pass-cases (failed e w) = inr (inl (e, w, refl))
Pass-cases (again w) = inr (inr (w, refl))

module _ (H : Host) where
  open H use {Outside, Failure, cluster, now}

  -- A listing of the node, the last call of the drain, showed no pod to evict.
  pub record IsEmptied (node_name : String) (w : World Outside) : Type 0 where
    pub before : Outside
    pub listed : List Pod
    pub listing : cluster.list_pods_on_node node_name before ≡ (ok listed, w.outside)
    pub none_left : filter_evictable listed ≡ []

  evict_pass_drained :
      (ps : List Pod) (w w' : World Outside) → evict_pass H ps w ≡ drained w' → (ps ≡ []) × (w ≡ w')
  unfolding evict_pass
  evict_pass_drained [] w w' h = ground arith
  evict_pass_drained (p ∷ ps) w w' h = ground arith

  drain_pass-IsEmptied :
      (node_name : String) (deadline : ℤ) (w w' : World Outside)
      → drain_pass H node_name deadline w ≡ drained w'
      → IsEmptied node_name w'
  unfolding drain_pass
  drain_pass-IsEmptied node_name deadline w w' h =
      let o = (now w.outside).1 in
      elim (Result-cases (cluster.list_pods_on_node node_name o).0) [
        | inl (ps, e) ↦
            let o' = (cluster.list_pods_on_node node_name o).1 in
            let w2 : World Outside = record w { outside = o' } in
            let h' : evict_pass H (filter_evictable ps) w2 ≡ drained w' = ground arith in
            let (nothing, same) = evict_pass_drained (filter_evictable ps) w2 w' h' in
            record { before = o; listed = ps; listing = ground arith; none_left = nothing }
        | inr (e, q) ↦ ground arith
      ]

  drain_loop-IsEmptied :
      (fuel : ℕ) (node_name : String) (deadline : ℤ) (w w' : World Outside)
      → drain_loop H fuel node_name deadline w ≡ some (ok tt, w')
      → IsEmptied node_name w'
  unfolding drain_loop
  drain_loop-IsEmptied zero node_name deadline w w' h = cc
  drain_loop-IsEmptied (suc fuel) node_name deadline w w' h =
      elim (Pass-cases (drain_pass H node_name deadline w)) [
        | inl (v, e) ↦ drain_pass-IsEmptied node_name deadline w w' (ground arith)
        | inr (inl (x, v, e)) ↦ ground arith
        | inr (inr (v, e)) ↦ drain_loop-IsEmptied fuel node_name deadline v w' (ground arith)
      ]

  -- A drain that reports success has cordoned the node, and its last listing showed no pod that
  -- could be evicted.
  pub drain_node-IsEmptied :
      (fuel : ℕ) (node_name : String) (timeout : ℤ) (w w' : World Outside)
      → drain_node H fuel node_name timeout w ≡ some (ok tt, w')
      → ((cluster.cordon node_name w.outside).0 ≡ ok tt) × IsEmptied node_name w'
  unfolding drain_node
  drain_node-IsEmptied fuel node_name timeout w w' h =
      elim (Result-cases (cluster.cordon node_name w.outside).0) [
        | inl (_, e) ↦
            let (_, w1) = change (cordons node_name) (cluster.cordon node_name) w in
            let (t, w2) = ask now w1 in
            (e, drain_loop-IsEmptied fuel node_name (t +ℤ timeout) w2 w' (ground arith))
        | inr (e, q) ↦ ground arith
      ]
