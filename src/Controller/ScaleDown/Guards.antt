-- ===== src/Controller/ScaleDown/Guards.antt =====
-- When a scale-down cycle (internal/controller/scale_down.go) touches a node, and in what order.
use kamatera_autoscaler.Base.{
  ℕ, pos, ◌<ℤ◌, leb_ℤ, Bool, true, false, String, ◌∷◌, some, ok, err, ◌≡◌, refl, arith, ◌⊎◌, inl,
  inr, Option-cases, Result-cases, Bool-cases, ap, ◌∙◌, leb_ℤ→gt,
}
use kamatera_autoscaler.Base.Dict.{Dict, get_int}
use kamatera_autoscaler.Config.{Config, Pool}
use kamatera_autoscaler.Kube.{Node}
use kamatera_autoscaler.Controller.Host.{Host, World, Event, succeeds, deletes, terminates}
use kamatera_autoscaler.Kamatera.Types.{Server}
use kamatera_autoscaler.Controller.Match.{pool_for_node}
use kamatera_autoscaler.Controller.Options.{Options}
use kamatera_autoscaler.Controller.Drain.{drain_node}
use kamatera_autoscaler.Controller.Drain.Outcome.{IsEmptied, drain_node-IsEmptied}
use kamatera_autoscaler.Controller.Drain.Trace.{
  Adds, Adds-refl, Adds-trans, is_drain_change, drain_node-Drains,
}
use kamatera_autoscaler.Controller.ScaleDown.{
  is_node_old_enough, is_node_idle, terminate_and_delete, remove_node, scale_down_node,
}

module _ (H : Host) (o : Options) where
  open H use {Outside, Failure, Template, cluster, cloud, is_server_not_found, labels.{Selector}}

  -- `terminateAndDelete` changes nothing if the server cannot be looked up. If the server is absent it
  -- deletes the node object; else it terminates the server first, and deletes the node object only if
  -- that was accepted. It reports success exactly if the deletion succeeded.
  pub terminate_and_delete_trace :
      (node_name : String) (w : World Outside)
      → let (r, w') = terminate_and_delete H o node_name w in
        let deletion : Bool → Event =
          λ done. record { change = deletes node_name; succeeded = done } in
        let found = (cloud.find_server_by_name node_name w.outside).0 in
        ((e : Failure) × (found ≡ err e)
          × (is_server_not_found e ≡ false)
          × (r ≡ err e)
          × (w'.trace ≡ w.trace))
        ⊎ (((e : Failure) × (found ≡ err e)
              × (is_server_not_found e ≡ true)
              × (w'.trace ≡ deletion (succeeds r) ∷ w.trace))
            ⊎ ((srv : Server) × (found ≡ ok srv)
                × (((succeeds r ≡ false)
                      × (w'.trace
                          ≡ record { change = terminates srv.id; succeeded = false } ∷ w.trace))
                    ⊎ (w'.trace
                        ≡ deletion (succeeds r)
                          ∷ record { change = terminates srv.id; succeeded = true }
                          ∷ w.trace))))
  unfolding terminate_and_delete
  terminate_and_delete_trace node_name w =
      elim (Result-cases (cloud.find_server_by_name node_name w.outside).0) [
        | inl (srv, f) ↦ inr (inr (srv, f, ground arith))
        | inr (e, f) ↦ elim (Bool-cases (is_server_not_found e)) [
          | inl absent ↦ inr (inl (e, f, absent, ground arith))
          | inr other ↦ inl (e, f, other, ground arith, ground arith)
        ]
      ]

  -- The pool of the node has more nodes than its minimum, and the node is old and idle.
  pub record MayGo (c : Config Selector Template) (by_pool : Dict ℕ) (n : Node) (w : World Outside)
      : Type 0 where
    pub pool : Pool Selector
    pub owned : pool_for_node n c ≡ some pool
    pub above : pool.min_nodes <ℤ pos (get_int pool.name by_pool)
    pub old : (is_node_old_enough H o n w).0 ≡ true
    pub idle : (is_node_idle H o n (is_node_old_enough H o n w).1).0 ≡ ok true

  is_node_old_enough_trace :
      (n : Node) (w : World Outside) → (is_node_old_enough H o n w).1.trace ≡ w.trace
  unfolding is_node_old_enough
  is_node_old_enough_trace n w = ground arith

  is_node_idle_trace : (n : Node) (w : World Outside) → (is_node_idle H o n w).1.trace ≡ w.trace
  unfolding is_node_idle
  is_node_idle_trace n w = refl

  -- With the guards before it passed, a pass keeps the node or comes to its removal.
  idle_cases :
      (fuel : ℕ) (c : Config Selector Template) (by_pool : Dict ℕ) (n : Node) (w w' : World Outside)
      (gone : Bool) (pool : Pool Selector)
      → pool_for_node n c ≡ some pool
      → leb_ℤ (pos (get_int pool.name by_pool)) pool.min_nodes ≡ false
      → (is_node_old_enough H o n w).0 ≡ true
      → scale_down_node H o fuel c by_pool n w ≡ some (gone, w')
      → let (idle, v) = is_node_idle H o n (is_node_old_enough H o n w).1 in
        ((gone ≡ false) × (w' ≡ v))
        ⊎ ((idle ≡ ok true) × (remove_node H o fuel n v ≡ some (gone, w')))
  unfolding scale_down_node
  idle_cases fuel c by_pool n w w' gone pool owned above old h = ground arith

  -- A pass keeps the node and changes nothing, or the node may go.
  scale_down_node-MayGo :
      (fuel : ℕ) (c : Config Selector Template) (by_pool : Dict ℕ) (n : Node) (w w' : World Outside)
      (gone : Bool)
      → scale_down_node H o fuel c by_pool n w ≡ some (gone, w')
      → ((gone ≡ false) × (w'.trace ≡ w.trace))
        ⊎ (MayGo c by_pool n w
            × ((v : World Outside) × (v.trace ≡ w.trace)
                × (remove_node H o fuel n v ≡ some (gone, w'))))
  unfolding scale_down_node
  scale_down_node-MayGo fuel c by_pool n w w' gone h =
      let w1 = (is_node_old_enough H o n w).1 in
      let w2 = (is_node_idle H o n w1).1 in
      let quiet = is_node_idle_trace n w1 ∙ is_node_old_enough_trace n w in
      elim (Option-cases (pool_for_node n c)) [
        | inl foreign ↦ inl (ground arith, ground arith)
        | inr (pool, owned) ↦
            elim (Bool-cases (leb_ℤ (pos (get_int pool.name by_pool)) pool.min_nodes)) [
              | inl low ↦ inl (ground arith, ground arith)
              | inr high ↦ elim (Bool-cases (is_node_old_enough H o n w).0) [
                | inr young ↦ inl (ground arith, ground (arith, is_node_old_enough_trace n w))
                | inl old ↦ elim (idle_cases fuel c by_pool n w w' gone pool owned high old h) [
                  | inl (kept, e) ↦ inl (kept, ap (λ (v : World Outside). v.trace) e ∙ quiet)
                  | inr (idle, e) ↦ inr (
                    record {
                      pool = pool;
                      owned = owned;
                      above = leb_ℤ→gt (pos (get_int pool.name by_pool)) pool.min_nodes high;
                      old = old;
                      idle = idle;
                    },
                    (w2, quiet, e),
                  )
                ]
              ]
            ]
      ]

  -- A removal whose drain fails leaves the node. Else the world is that of `terminateAndDelete` after
  -- the drain, and the node is gone exactly if that reports success.
  remove_node_drains :
      (fuel : ℕ) (n : Node) (w w' : World Outside) (gone : Bool)
      → remove_node H o fuel n w ≡ some (gone, w')
      → ((gone ≡ false) × Adds (is_drain_change n.name) w w')
        ⊎ ((v : World Outside) × (drain_node H fuel n.name o.drain_timeout w ≡ some (ok tt, v))
            × (w' ≡ (terminate_and_delete H o n.name v).1)
            × (gone ≡ succeeds (terminate_and_delete H o n.name v).0))
  unfolding remove_node
  remove_node_drains fuel n w w' gone h =
      elim (Option-cases (drain_node H fuel n.name o.drain_timeout w)) [
        | inl e ↦ ground arith
        | inr ((r, v), e) ↦ elim (Result-cases r) [
          | inl (_, done) ↦ inr (v, ground arith, ground arith, ground arith)
          | inr (x, failed) ↦
              inl (
                ground arith,
                drain_node-Drains H n.name fuel o.drain_timeout w w' r (ground arith),
              )
        ]
      ]

  -- A pass over a node changes something only if the node's pool is above its minimum and the node is
  -- old and idle. Then it drains the node first, and asks to terminate its server and to delete its
  -- object only after a drain whose last listing showed nothing to evict.
  pub scale_down_node_order :
      (fuel : ℕ) (c : Config Selector Template) (by_pool : Dict ℕ) (n : Node) (w w' : World Outside)
      (gone : Bool)
      → scale_down_node H o fuel c by_pool n w ≡ some (gone, w')
      → ((gone ≡ false) × (w'.trace ≡ w.trace))
        ⊎ (MayGo c by_pool n w
            × (((gone ≡ false) × Adds (is_drain_change n.name) w w')
                ⊎ ((v : World Outside) × Adds (is_drain_change n.name) w v
                    × IsEmptied H n.name v
                    × (w' ≡ (terminate_and_delete H o n.name v).1)
                    × (gone ≡ succeeds (terminate_and_delete H o n.name v).0))))
  scale_down_node_order fuel c by_pool n w w' gone h =
      elim (scale_down_node-MayGo fuel c by_pool n w w' gone h) [
        | inl kept ↦ inl kept
        | inr (may, (u, same, e)) ↦
            let quiet = Adds-refl (is_drain_change n.name) w u same in
            elim (remove_node_drains fuel n u w' gone e) [
              | inl (kept, drains) ↦ inr (may, inl (kept, Adds-trans _ quiet drains))
              | inr (v, drained, ends, done) ↦ inr (
                may,
                inr (
                  v,
                  Adds-trans _ quiet
                      (drain_node-Drains H n.name fuel o.drain_timeout u v (ok tt) drained),
                  (drain_node-IsEmptied H fuel n.name o.drain_timeout u v drained).1,
                  ends,
                  done,
                ),
              )
            ]
      ]
