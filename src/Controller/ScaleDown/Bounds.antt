-- ===== src/Controller/ScaleDown/Bounds.antt =====
-- A scale-down cycle (internal/controller/scale_down.go) leaves every pool its `min_nodes`.
use mathlib.Core.Option.{some-injective}
use kamatera_autoscaler.Base.{
  ℕ, ◌+◌, ◌-◌, ◌≤◌, ℤ, pos, ◌≤ℤ◌, Bool, true, false, String, ◌==◌, ==→eq, List, [], ◌∷◌, count_if,
  none, some, ok, ◌≡◌, refl, sym, subst, ap, ◌∙◌, arith, ◌⊎◌, inl, inr, if◌then◌else◌, Option-cases,
  Bool-cases,
}
use kamatera_autoscaler.Base.Dict.{lookup, lookup-insert, get_int}
use kamatera_autoscaler.Config.{Config, Pool, pool_by_name}
use kamatera_autoscaler.Config.Valid.{pool_by_name-name}
use kamatera_autoscaler.Kube.{Node}
use kamatera_autoscaler.Controller.Host.{Host, World, ask}
use kamatera_autoscaler.Controller.Match.{pool_for_node, count_nodes_by_pool}
use kamatera_autoscaler.Controller.Match.Laws.{is_in_pool, count_nodes_by_pool-count}
use kamatera_autoscaler.Controller.Options.{Options}
use kamatera_autoscaler.Controller.ScaleDown.{
  Sweep, scale_down_node, count_down, scale_down_nodes, scale_down,
}
use kamatera_autoscaler.Controller.ScaleDown.Guards.{MayGo, scale_down_node_order}

-- A node's pool is found under the node's label.
pool_for_node-label :
    {S T : Type 0} (n : Node) (c : Config S T) (pool : Pool S)
    → pool_for_node n c ≡ some pool
    → (lookup "pool" n.labels ≡ some pool.name) × (pool_by_name c pool.name ≡ some pool)
unfolding pool_for_node
pool_for_node-label n c pool h = elim (Option-cases (lookup "pool" n.labels)) [
  | inl none_there ↦ ground arith
  | inr (name, e) ↦
      let found : pool_by_name c name ≡ some pool = ground arith in
      let same = pool_by_name-name c name pool found in
      (e ∙ ap some (sym same), ap (pool_by_name c) same ∙ found)
]

module _ (H : Host) (o : Options) (c : Config H.labels.Selector H.Template) where
  abbrev gone_from : String → Sweep H o → ℕ
  gone_from q s = count_if (is_in_pool q) s.counted_down

  -- The nodes of the pool are those that its count still has and those taken off it, and the count
  -- has stopped at the minimum if any was.
  record Floor (q : String) (total : ℕ) (limit : ℤ) (s : Sweep H o) : Type 0 where
    counted : get_int q s.by_pool + gone_from q s ≡ total
    floor : (gone_from q s ≡ 0) ⊎ (limit ≤ℤ pos (get_int q s.by_pool))

  abbrev pub after_pass : Node → Bool → Sweep H o → World H.Outside → Sweep H o
  after_pass n gone s w = record {
    counted_down = if gone then n ∷ s.counted_down else s.counted_down;
    by_pool = count_down H o c n gone s.by_pool;
    world = w;
  }

  Floor-kept :
      (q : String) (total : ℕ) (limit : ℤ) (n : Node) (s : Sweep H o) (w : World H.Outside)
      → Floor q total limit s
      → Floor q total limit (after_pass n false s w)
  Floor-kept q total limit n s w f = ground arith

  Floor-gone :
      (q : String) (total : ℕ) (limit : ℤ) (pool : Pool H.labels.Selector) (n : Node)
      (s : Sweep H o) (w : World H.Outside)
      → pool_by_name c q ≡ some pool
      → pool.min_nodes ≡ limit
      → pos 0 ≤ℤ limit
      → MayGo H o c s.by_pool n s.world
      → Floor q total limit s
      → Floor q total limit (after_pass n true s w)
  Floor-gone q total limit pool n s w found m nonneg may f =
      let (label, own) = pool_for_node-label n c may.pool may.owned in
      elim (Bool-cases (may.pool.name == q)) [
        | inl same ↦
            let one : may.pool ≡ pool =
              some-injective may.pool pool
                (sym own ∙ (ap (pool_by_name c) (==→eq may.pool.name q same) ∙ found)) in
            let low : may.pool.min_nodes ≡ limit =
              ap (λ (p : Pool H.labels.Selector). p.min_nodes) one ∙ m in
            ground (
              arith,
              low,
              lookup-insert may.pool.name q (get_int may.pool.name s.by_pool - 1) s.by_pool,
            )
        | inr other ↦
            ground
              (arith, lookup-insert may.pool.name q (get_int may.pool.name s.by_pool - 1) s.by_pool)
      ]

  Floor-pass :
      (q : String) (total : ℕ) (limit : ℤ) (pool : Pool H.labels.Selector) (n : Node)
      (s : Sweep H o) (w : World H.Outside) (gone : Bool)
      → pool_by_name c q ≡ some pool
      → pool.min_nodes ≡ limit
      → pos 0 ≤ℤ limit
      → (fuel : ℕ) → scale_down_node H o fuel c s.by_pool n s.world ≡ some (gone, w)
      → Floor q total limit s
      → Floor q total limit (after_pass n gone s w)
  Floor-pass q total limit pool n s w false found m nonneg fuel e f =
      Floor-kept q total limit n s w f
  Floor-pass q total limit pool n s w true found m nonneg fuel e f =
      elim (scale_down_node_order H o fuel c s.by_pool n s.world w true e) [
        | inl (kept, _) ↦ cc
        | inr (may, _) ↦ Floor-gone q total limit pool n s w found m nonneg may f
      ]

  scale_down_nodes-Floor :
      (q : String) (total : ℕ) (limit : ℤ) (pool : Pool H.labels.Selector) (fuel : ℕ)
      (ns : List Node) (s s' : Sweep H o)
      → pool_by_name c q ≡ some pool
      → pool.min_nodes ≡ limit
      → pos 0 ≤ℤ limit
      → Floor q total limit s
      → scale_down_nodes H o fuel c ns s ≡ some s'
      → Floor q total limit s'
  unfolding scale_down_nodes
  scale_down_nodes-Floor q total limit pool fuel [] s s' found m nonneg f h =
      subst (Floor q total limit) (some-injective s s' h) f
  scale_down_nodes-Floor q total limit pool fuel (n ∷ ns) s s' found m nonneg f h =
      elim (Option-cases (scale_down_node H o fuel c s.by_pool n s.world)) [
        | inl stuck ↦ ground arith
        | inr ((gone, w), e) ↦
            scale_down_nodes-Floor q total limit pool fuel ns (after_pass n gone s w) s' found m
              nonneg (Floor-pass q total limit pool n s w gone found m nonneg fuel e f)
              (ground arith)
      ]

  -- After a cycle that could list the nodes, a configured pool whose minimum is not negative has lost
  -- no node to a removal that succeeded, or as many listed nodes as its minimum are left without those
  -- that it lost so.
  pub scale_down-within_min :
      (fuel : ℕ) (q : String) (pool : Pool H.labels.Selector) (w : World H.Outside)
      (nodes : List Node) (s : Sweep H o)
      → pool_by_name c q ≡ some pool
      → pos 0 ≤ℤ pool.min_nodes
      → (H.cluster.list_nodes w.outside).0 ≡ ok nodes
      → scale_down H o fuel c w ≡ some (none, s)
      → (count_if (is_in_pool q) s.counted_down ≡ 0)
        ⊎ ((count_if (is_in_pool q) s.counted_down ≤ count_if (is_in_pool q) nodes)
            × (pool.min_nodes
                ≤ℤ pos (count_if (is_in_pool q) nodes - count_if (is_in_pool q) s.counted_down)))
  unfolding scale_down
  scale_down-within_min fuel q pool w nodes s found nonneg listed h =
      let (_, w1) = ask H.cluster.list_nodes w in
      let start : Sweep H o = record {
        counted_down = [];
        by_pool = count_nodes_by_pool nodes;
        world = w1;
      } in
      let run : scale_down_nodes H o fuel c nodes start ≡ some s = ground arith in
      let f =
        scale_down_nodes-Floor q (count_if (is_in_pool q) nodes) pool.min_nodes pool fuel nodes
          start s found refl nonneg
          (record { counted = omega (arith, count_nodes_by_pool-count nodes q); floor = inl refl })
          run in
      ground (arith, f)
