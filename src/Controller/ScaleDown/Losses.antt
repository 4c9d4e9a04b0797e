-- ===== src/Controller/ScaleDown/Losses.antt =====
-- The nodes that a scale-down cycle (internal/controller/scale_down.go) takes away, by the events of the
-- cycle: also those whose server was terminated, but whose node object could not be deleted.
use kamatera_autoscaler.Base.{
  ℕ, ◌+◌, ◌-◌, ◌≤◌, pos, ◌≤ℤ◌, Bool, true, false, if◌then◌else◌, ltb, not, String, List, [], ◌∷◌,
  ◌++◌, All, count_if, none, some, ok, err, ◌≡◌, refl, ap, ◌∙◌, arith, ◌⊎◌, inl, inr, Option-cases,
}
use kamatera_autoscaler.Base.Dict.{Dict}
use kamatera_autoscaler.Config.{Config, Pool, pool_by_name}
use kamatera_autoscaler.Kube.{Node}
use kamatera_autoscaler.Controller.Host.{
  Host, World, Event, Change, succeeds, cordons, evicts, deletes, creates, terminates, ask,
}
use kamatera_autoscaler.Controller.Options.{Options}
use kamatera_autoscaler.Controller.Match.{count_nodes_by_pool}
use kamatera_autoscaler.Controller.Match.Laws.{is_in_pool}
use kamatera_autoscaler.Controller.Drain.Trace.{Adds, is_drain_change}
use kamatera_autoscaler.Controller.ScaleDown.{
  Sweep, terminate_and_delete, scale_down_node, scale_down_nodes, scale_down,
}
use kamatera_autoscaler.Controller.ScaleDown.Guards.{
  terminate_and_delete_trace, scale_down_node_order,
}
use kamatera_autoscaler.Controller.ScaleDown.Bounds.{after_pass, scale_down-within_min}

-- A server is terminated, or a node object deleted.
abbrev pub is_loss : Event → Bool
is_loss e = elim e.change [
  | cordons n ↦ false
  | evicts p ↦ false
  | deletes n ↦ e.succeeded
  | creates req ↦ false
  | terminates id ↦ e.succeeded
]

-- A node object that could not be deleted.
abbrev pub is_failed_deletion : Event → Bool
is_failed_deletion e = elim e.change [
  | cordons n ↦ false
  | evicts p ↦ false
  | deletes n ↦ not e.succeeded
  | creates req ↦ false
  | terminates id ↦ false
]

abbrev pub losses : {O : Type 0} → World O → ℕ
losses w = count_if is_loss w.trace

abbrev pub failed_deletions : {O : Type 0} → World O → ℕ
failed_deletions w = count_if is_failed_deletion w.trace

drain_change-loss :
    (node_name : String) (x : Change) (done : Bool)
    → is_drain_change node_name x ≡ true
    → let e : Event = record { change = x; succeeded = done } in
      (is_loss e ≡ false) × (is_failed_deletion e ≡ false)
drain_change-loss node_name (cordons n) done h = (refl, refl)
drain_change-loss node_name (evicts p) done h = (refl, refl)
drain_change-loss node_name (deletes n) done h = ground arith
drain_change-loss node_name (creates r) done h = ground arith
drain_change-loss node_name (terminates id) done h = ground arith

drain-losses :
    (node_name : String) (new old : List Event)
    → All (λ e. is_drain_change node_name e.change ≡ true) new
    → (count_if is_loss (new ++ old) ≡ count_if is_loss old)
      × (count_if is_failed_deletion (new ++ old) ≡ count_if is_failed_deletion old)
drain-losses node_name [] old h = (refl, refl)
drain-losses node_name (e ∷ new) old (one, h) =
    ground (
      arith,
      drain_change-loss node_name e.change e.succeeded one,
      drain-losses node_name new old h,
    )

module _ (H : Host) (o : Options) where
  open H use {Outside, Template, cluster, labels.{Selector}}

  Adds-losses :
      (node_name : String) (w w' : World Outside)
      → Adds (is_drain_change node_name) w w'
      → (losses w' ≡ losses w) × (failed_deletions w' ≡ failed_deletions w)
  Adds-losses node_name w w' a =
      let (lost, failed) = drain-losses node_name a.new w.trace a.passed in
      (ap (count_if is_loss) a.split ∙ lost, ap (count_if is_failed_deletion) a.split ∙ failed)

  -- Whether a pass loses its node.
  abbrev loses : World Outside → World Outside → Bool
  loses w w' = ltb (losses w) (losses w')

  -- A node that is lost is counted as gone, or its deletion failed.
  record Accounts (gone : Bool) (w w' : World Outside) : Type 0 where
    paid :
        (if loses w w' then 1 else 0) + failed_deletions w
        ≤ (if gone then 1 else 0) + failed_deletions w'
    noted : failed_deletions w ≤ failed_deletions w'

  terminate_and_delete-Accounts :
      (node_name : String) (w : World Outside)
      → let (r, w') = terminate_and_delete H o node_name w in Accounts (succeeds r) w w'
  terminate_and_delete-Accounts node_name w =
      ground (arith, terminate_and_delete_trace H o node_name w)

  scale_down_node-Accounts :
      (fuel : ℕ) (c : Config Selector Template) (by_pool : Dict ℕ) (n : Node) (w w' : World Outside)
      (gone : Bool)
      → scale_down_node H o fuel c by_pool n w ≡ some (gone, w')
      → Accounts gone w w'
  scale_down_node-Accounts fuel c by_pool n w w' gone h =
      elim (scale_down_node_order H o fuel c by_pool n w w' gone h) [
        | inl (kept, same) ↦
            ground (arith, ap (count_if is_loss) same, ap (count_if is_failed_deletion) same)
        | inr (_, inl (_, drains)) ↦ ground (arith, Adds-losses n.name w w' drains)
        | inr (_, inr (v, drains, _, ends, done)) ↦
            let taken = terminate_and_delete-Accounts n.name v in
            rw (ends, done) (ground (arith, Adds-losses n.name w v drains, taken))
      ]

  -- The nodes that the passes of a cycle lose.
  abbrev pub lost_in : ℕ → Config Selector Template → List Node → Sweep H o → List Node
  lost_in fuel c [] s = []
  lost_in fuel c (n ∷ ns) s = elim (scale_down_node H o fuel c s.by_pool n s.world) [
    | none ↦ []
    | some (gone, w) ↦
        let rest = lost_in fuel c ns (after_pass H o c n gone s w) in
        if loses s.world w then n ∷ rest else rest
  ]

  -- The nodes that a cycle loses, by its events.
  abbrev pub lost_nodes : ℕ → Config Selector Template → World Outside → List Node
  lost_nodes fuel c w =
      let (listed, w1) = ask cluster.list_nodes w in
      elim listed [
        | err e ↦ []
        | ok nodes ↦
            lost_in fuel c nodes
              (record { counted_down = []; by_pool = count_nodes_by_pool nodes; world = w1 })
      ]

  lost_in-gone :
      (fuel : ℕ) (c : Config Selector Template) (q : String) (ns : List Node) (s s' : Sweep H o)
      → scale_down_nodes H o fuel c ns s ≡ some s'
      → count_if (is_in_pool q) (lost_in fuel c ns s)
          + count_if (is_in_pool q) s.counted_down
          + failed_deletions s.world
        ≤ count_if (is_in_pool q) s'.counted_down + failed_deletions s'.world
  unfolding scale_down_nodes
  lost_in-gone fuel c q [] s s' h = ground arith
  lost_in-gone fuel c q (n ∷ ns) s s' h =
      elim (Option-cases (scale_down_node H o fuel c s.by_pool n s.world)) [
        | inl stuck ↦ ground arith
        | inr ((gone, w), e) ↦
            let next = after_pass H o c n gone s w in
            let rest = lost_in-gone fuel c q ns next s' (ground arith) in
            rw (e, lost_in)
              (ground (arith, scale_down_node-Accounts fuel c s.by_pool n s.world w gone e, rest))
      ]

  -- After a cycle that could list the nodes, a configured pool whose minimum is not negative has lost
  -- no more nodes than deletions of node objects failed, or with one node less for each of these at
  -- most, as many listed nodes as its minimum are left.
  pub scale_down-lost :
      (fuel : ℕ) (c : Config Selector Template) (q : String) (pool : Pool Selector)
      (w : World Outside) (nodes : List Node) (s : Sweep H o)
      → pool_by_name c q ≡ some pool
      → pos 0 ≤ℤ pool.min_nodes
      → (cluster.list_nodes w.outside).0 ≡ ok nodes
      → scale_down H o fuel c w ≡ some (none, s)
      → let lost = count_if (is_in_pool q) (lost_nodes fuel c w) in
        let failed = failed_deletions s.world - failed_deletions w in
        (lost ≤ failed)
        ⊎ ((lost - failed ≤ count_if (is_in_pool q) nodes)
            × (pool.min_nodes ≤ℤ pos (count_if (is_in_pool q) nodes - (lost - failed))))
  unfolding scale_down
  scale_down-lost fuel c q pool w nodes s found nonneg listed h =
      let (_, w1) = ask cluster.list_nodes w in
      let start : Sweep H o = record {
        counted_down = [];
        by_pool = count_nodes_by_pool nodes;
        world = w1;
      } in
      let run : scale_down_nodes H o fuel c nodes start ≡ some s = ground arith in
      let lost = lost_in-gone fuel c q nodes start s run in
      rw (listed, lost_nodes)
        (ground
          (arith, lost, scale_down-within_min H o c fuel q pool w nodes s found nonneg listed h))
