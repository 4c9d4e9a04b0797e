-- ===== src/Controller/ScaleDown/Ends.antt =====
-- A scale-down cycle (internal/controller/scale_down.go) ends.
use kamatera_autoscaler.Base.{
  ℕ, suc, ◌*◌, ◌<◌, pos, List, [], ◌∷◌, none, some, ok, ◌≡◌, ◌≢◌, refl, arith, inl, inr,
  Option-cases,
}
use kamatera_autoscaler.Base.Dict.{Dict}
use kamatera_autoscaler.Config.{Config}
use kamatera_autoscaler.Kube.{Node}
use kamatera_autoscaler.Controller.Host.{Host, World, ask}
use kamatera_autoscaler.Controller.Options.{Options}
use kamatera_autoscaler.Controller.Match.{count_nodes_by_pool}
use kamatera_autoscaler.Controller.Drain.{drain_node}
use kamatera_autoscaler.Controller.Drain.Ends.{KeepsTime, drain_node_ends}
use kamatera_autoscaler.Controller.ScaleDown.{
  Sweep, is_node_old_enough, is_node_idle, remove_node, scale_down_node, scale_down_nodes,
  scale_down,
}
use kamatera_autoscaler.Controller.ScaleDown.Bounds.{after_pass}

module _ (H : Host) (C : KeepsTime H) (o : Options) (seconds fuel : ℕ) where
  open H use {Outside, Template, cluster, labels.{Selector}}

  remove_node_ends :
      (n : Node) (w : World Outside)
      → o.drain_timeout ≡ pos (1000000000 * seconds)
      → seconds < 2 * fuel
      → remove_node H o (suc fuel) n w ≢ none
  unfolding remove_node
  remove_node_ends n w timeout enough =
      elim (Option-cases (drain_node H (suc fuel) n.name o.drain_timeout w)) [
        | inl stuck ↦ ground (arith, timeout, drain_node_ends H C seconds fuel n.name w enough)
        | inr ((r, v), e) ↦ ground arith
      ]

  scale_down_node_ends :
      (c : Config Selector Template) (by_pool : Dict ℕ) (n : Node) (w : World Outside)
      → o.drain_timeout ≡ pos (1000000000 * seconds)
      → seconds < 2 * fuel
      → scale_down_node H o (suc fuel) c by_pool n w ≢ none
  unfolding scale_down_node
  scale_down_node_ends c by_pool n w timeout enough stuck =
      let w1 = (is_node_old_enough H o n w).1 in
      let w2 = (is_node_idle H o n w1).1 in ground (arith, remove_node_ends n w2 timeout enough)

  scale_down_nodes_ends :
      (c : Config Selector Template) (ns : List Node) (s : Sweep H o)
      → o.drain_timeout ≡ pos (1000000000 * seconds)
      → seconds < 2 * fuel
      → (s' : Sweep H o) × (scale_down_nodes H o (suc fuel) c ns s ≡ some s')
  unfolding scale_down_nodes
  scale_down_nodes_ends c [] s timeout enough = (s, refl)
  scale_down_nodes_ends c (n ∷ ns) s timeout enough =
      elim (Option-cases (scale_down_node H o (suc fuel) c s.by_pool n s.world)) [
        | inl stuck ↦ ground (arith, scale_down_node_ends c s.by_pool n s.world timeout enough)
        | inr ((gone, w), e) ↦
            let (s', done) =
              scale_down_nodes_ends c ns (after_pass H o c n gone s w) timeout enough in
            (s', ground (arith, done))
      ]

  -- With a clock that keeps time, a cycle that can list the nodes comes to its end, without an error, with a fuel
  -- of half the seconds of the drain timeout for each node.
  pub scale_down_ends :
      (c : Config Selector Template) (w : World Outside) (nodes : List Node)
      → o.drain_timeout ≡ pos (1000000000 * seconds)
      → seconds < 2 * fuel
      → (cluster.list_nodes w.outside).0 ≡ ok nodes
      → (s : Sweep H o) × (scale_down H o (suc fuel) c w ≡ some (none, s))
  unfolding scale_down
  scale_down_ends c w nodes timeout enough listed =
      let (_, w1) = ask cluster.list_nodes w in
      let start : Sweep H o = record {
        counted_down = [];
        by_pool = count_nodes_by_pool nodes;
        world = w1;
      } in
      let (s, done) = scale_down_nodes_ends c nodes start timeout enough in
      (s, ground (arith, done))
