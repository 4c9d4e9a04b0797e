-- ===== src/Controller/ScaleDown/Creations.antt =====
-- A scale-down cycle (internal/controller/scale_down.go) asks for no server.
use kamatera_autoscaler.Base.{
  ℕ, Bool, true, false, ◌==◌, if◌then◌else◌, String, List, [], ◌∷◌, ◌++◌, All, count_if, Option,
  some, ◌≡◌, refl, ap, ◌∙◌, arith, inl, inr, Option-cases, Result-cases,
}
use kamatera_autoscaler.Base.Dict.{Dict}
use kamatera_autoscaler.Config.{Config}
use kamatera_autoscaler.Kube.{Node}
use kamatera_autoscaler.Controller.Host.{
  Host, World, Event, Change, cordons, evicts, deletes, creates, terminates, ask,
}
use kamatera_autoscaler.Controller.Options.{Options}
use kamatera_autoscaler.Controller.Match.{count_nodes_by_pool}
use kamatera_autoscaler.Controller.Drain.Trace.{Adds, is_drain_change}
use kamatera_autoscaler.Controller.ScaleDown.{
  Sweep, terminate_and_delete, scale_down_node, scale_down_nodes, scale_down, count_down,
}
use kamatera_autoscaler.Controller.ScaleDown.Guards.{
  terminate_and_delete_trace, scale_down_node_order,
}

-- The requests for a server of a name.
abbrev pub is_creation_of : String → Event → Bool
is_creation_of k e = elim e.change [
  | cordons n ↦ false
  | evicts p ↦ false
  | deletes n ↦ false
  | creates req ↦ req.name == k
  | terminates id ↦ false
]

abbrev pub creations_of : {O : Type 0} → String → World O → ℕ
creations_of k w = count_if (is_creation_of k) w.trace

drain_change-creation :
    (k : String) (node_name : String) (x : Change) (done : Bool)
    → is_drain_change node_name x ≡ true
    → is_creation_of k (record { change = x; succeeded = done }) ≡ false
drain_change-creation k node_name (cordons n) done h = refl
drain_change-creation k node_name (evicts p) done h = refl
drain_change-creation k node_name (deletes n) done h = refl
drain_change-creation k node_name (creates r) done h = ground arith
drain_change-creation k node_name (terminates id) done h = refl

drain-creations :
    (k : String) (node_name : String) (new old : List Event)
    → All (λ e. is_drain_change node_name e.change ≡ true) new
    → count_if (is_creation_of k) (new ++ old) ≡ count_if (is_creation_of k) old
drain-creations k node_name [] old h = refl
drain-creations k node_name (e ∷ new) old (one, h) = ground (
  arith,
  drain_change-creation k node_name e.change e.succeeded one,
  drain-creations k node_name new old h,
)

module _ (H : Host) (o : Options) where
  open H use {Outside, Template, cluster, labels.{Selector}}

  Adds-creations :
      (k : String) (node_name : String) (w w' : World Outside)
      → Adds (is_drain_change node_name) w w'
      → creations_of k w' ≡ creations_of k w
  Adds-creations k node_name w w' a =
      ap (count_if (is_creation_of k)) a.split ∙ drain-creations k node_name a.new w.trace a.passed

  terminate_and_delete-creations :
      (k : String) (node_name : String) (w : World Outside)
      → creations_of k (terminate_and_delete H o node_name w).1 ≡ creations_of k w
  terminate_and_delete-creations k node_name w =
      ground (arith, terminate_and_delete_trace H o node_name w)

  scale_down_node-creations :
      (k : String) (fuel : ℕ) (c : Config Selector Template) (by_pool : Dict ℕ) (n : Node)
      (w w' : World Outside) (gone : Bool)
      → scale_down_node H o fuel c by_pool n w ≡ some (gone, w')
      → creations_of k w' ≡ creations_of k w
  scale_down_node-creations k fuel c by_pool n w w' gone h =
      elim (scale_down_node_order H o fuel c by_pool n w w' gone h) [
        | inl (_, same) ↦ ap (count_if (is_creation_of k)) same
        | inr (_, inl (_, drains)) ↦ Adds-creations k n.name w w' drains
        | inr (_, inr (v, drains, _, ends, _)) ↦
            ap (creations_of k) ends
            ∙ (terminate_and_delete-creations k n.name v ∙ Adds-creations k n.name w v drains)
      ]

  scale_down_nodes-creations :
      (k : String) (fuel : ℕ) (c : Config Selector Template) (ns : List Node) (s s' : Sweep H o)
      → scale_down_nodes H o fuel c ns s ≡ some s'
      → creations_of k s'.world ≡ creations_of k s.world
  unfolding scale_down_nodes
  scale_down_nodes-creations k fuel c [] s s' h = ground arith
  scale_down_nodes-creations k fuel c (n ∷ ns) s s' h =
      elim (Option-cases (scale_down_node H o fuel c s.by_pool n s.world)) [
        | inl stuck ↦ ground arith
        | inr ((gone, w), e) ↦
            scale_down_nodes-creations k fuel c ns
              (record {
                counted_down = if gone then n ∷ s.counted_down else s.counted_down;
                by_pool = count_down H o c n gone s.by_pool;
                world = w;
              })
              s' (ground arith)
            ∙ scale_down_node-creations k fuel c s.by_pool n s.world w gone e
      ]

  pub scale_down-creations :
      (k : String) (fuel : ℕ) (c : Config Selector Template) (w : World Outside)
      (x : Option H.Failure) (sweep : Sweep H o)
      → scale_down H o fuel c w ≡ some (x, sweep)
      → creations_of k sweep.world ≡ creations_of k w
  unfolding scale_down
  scale_down-creations k fuel c w x sweep h =
      let (listed, w1) = ask cluster.list_nodes w in
      elim (Result-cases listed) [
        | inr (e, failed) ↦ ground arith
        | inl (nodes, got) ↦
            let start : Sweep H o = record {
              counted_down = [];
              by_pool = count_nodes_by_pool nodes;
              world = w1;
            } in
            elim (Option-cases (scale_down_nodes H o fuel c nodes start)) [
              | inl stuck ↦ ground arith
              | inr (s, e) ↦ ground (arith, scale_down_nodes-creations k fuel c nodes start s e)
            ]
      ]
