-- ===== src/Controller/ScaleUp/Bounds.antt =====
-- A scale-up cycle (internal/controller/scale_up.go) keeps every pool within its `max_nodes`.
use Prim.Native.Nat.{min}
use kamatera_autoscaler.Base.{
  ◌-ℤ◌, ℕ, zero, suc, ◌+◌, ◌-◌, ◌≤◌, ℤ, pos, ◌≤ℤ◌, String, ◌==◌, List, [], ◌∷◌, none, some, ok, ◌≡◌,
  refl, ◌⊎◌, inl, inr, arith, if◌then◌else◌, Option-cases, sym, ap, ◌∙◌,
}
use kamatera_autoscaler.Base.Dict.{Dict, get_int}
use kamatera_autoscaler.Config.{Config, Pool, pool_by_name}
use mathlib.Core.Option.{some-injective}
use kamatera_autoscaler.Kube.{Pod, Node}
use kamatera_autoscaler.Controller.Host.{Host, World, ask}
use kamatera_autoscaler.Controller.Pending.{PendingTracker, count, entries_for}
use kamatera_autoscaler.Controller.Pending.Laws.{entries_for-add, entries_for-count}
use kamatera_autoscaler.Controller.Match.{group_pending_by_pool, count_nodes_by_pool}
use kamatera_autoscaler.Controller.ScaleUp.{
  Cycle, nodes_to_create, start_node, start_nodes, scale_up_pool, scale_up_pools, scale_up,
}

-- With a limit that is not negative, a cycle asks for the pending pods that no node in flight
-- covers, as far as the limit leaves room.
pub nodes_to_create-min :
    (max current in_flight pending : ℕ)
    → nodes_to_create (pos max) current in_flight pending
      ≡ min (pending - in_flight) (max - (current + in_flight))
unfolding nodes_to_create ◌-ℤ◌
nodes_to_create-min max current in_flight pending = ground arith

pub nodes_to_create_bound :
    (max : ℤ) (current in_flight pending : ℕ)
    → (nodes_to_create max current in_flight pending ≡ 0)
      ⊎ (pos (current + in_flight + nodes_to_create max current in_flight pending) ≤ℤ max)
unfolding nodes_to_create ◌-ℤ◌
nodes_to_create_bound max current in_flight pending = ground arith

module _ (H : Host) where
  open H use {Outside, Template, cluster, labels.{Selector}}

  abbrev pub held : String → Cycle H → ℕ
  held q s = entries_for q s.creating.entries

  pub start_node-held :
      (name q : String) (pool : Pool Selector) (s : Cycle H)
      → held q (start_node H name pool s) ≤ (if name == q then 1 else 0) + held q s
  unfolding start_node
  start_node-held name q pool s = entries_for-add name _ q _ _ s.creating

  start_nodes-held :
      (n : ℕ) (name q : String) (pool : Pool Selector) (s : Cycle H)
      → held q (start_nodes H n name pool s) ≤ (if name == q then n else 0) + held q s
  unfolding start_nodes
  start_nodes-held zero name q pool s = ground arith
  start_nodes-held (suc n) name q pool s = ground (
    arith,
    start_nodes-held n name q pool (start_node H name pool s),
    start_node-held name q pool s,
  )

  module _ (c : Config Selector Template) (nodes : Dict ℕ) (q : String) (limit : ℤ) where
    -- The tracker holds no more nodes of the pool than before, or the pool's nodes and those in
    -- flight fit its limit.
    abbrev pub KeepsLimit : ℕ → Cycle H → Type 0
    KeepsLimit before s = (held q s ≤ before) ⊎ (pos (get_int q nodes + held q s) ≤ℤ limit)

    KeepsLimit-trans :
        (before : ℕ) (s t : Cycle H)
        → KeepsLimit before s
        → KeepsLimit (held q s) t
        → KeepsLimit before t
    KeepsLimit-trans before s t h k = ground arith

    KeepsLimit-step :
        (name : String) (pending : ℕ) (pool : Pool Selector) (s : Cycle H)
        → ((name ≡ q) → (pool.max_nodes ≡ limit))
        → pool_by_name c name ≡ some pool
        → KeepsLimit (held q s) (scale_up_pool H c nodes (name, pending) s)
    unfolding scale_up_pool
    KeepsLimit-step name pending pool s same e =
        let (t, w) = ask H.now s.world in
        let (in_flight, u) = count name t s.creating in
        let n = nodes_to_create pool.max_nodes (get_int name nodes) in_flight pending in
        ground (
          arith,
          entries_for-count name q t s.creating,
          start_nodes-held n name q pool (record s { creating = u; world = w }),
          nodes_to_create_bound pool.max_nodes (get_int name nodes) in_flight pending,
        )

    KeepsLimit-skip :
        (name : String) (pending : ℕ) (s : Cycle H)
        → pool_by_name c name ≡ none
        → KeepsLimit (held q s) (scale_up_pool H c nodes (name, pending) s)
    unfolding scale_up_pool
    KeepsLimit-skip name pending s missing = rw (missing, scale_up_pool) (inl (omega arith))

    scale_up_pools-KeepsLimit :
        (pool : Pool Selector)
        → pool_by_name c q ≡ some pool
        → pool.max_nodes ≡ limit
        → (before : ℕ) (ps : Dict ℕ) (s : Cycle H) → KeepsLimit before s
        → KeepsLimit before (scale_up_pools H c nodes ps s)
    unfolding scale_up_pools
    scale_up_pools-KeepsLimit pool e m before [] s k = k
    scale_up_pools-KeepsLimit pool e m before ((name, pending) ∷ ps) s k =
        let s' = scale_up_pool H c nodes (name, pending) s in
        scale_up_pools-KeepsLimit pool e m before ps s' (
          KeepsLimit-trans before s s' k (elim (Option-cases (pool_by_name c name)) [
            | inl missing ↦ KeepsLimit-skip name pending s missing
            | inr (p, found) ↦
                KeepsLimit-step name pending p s
                  (λ same.
                    ap (λ (r : Pool Selector). r.max_nodes)
                      (some-injective p pool (sym found ∙ (ap (pool_by_name c) same ∙ e)))
                    ∙ m)
                  found
          ]))

  scale_up_listed :
      (c : Config Selector Template) (visit : Dict ℕ → Dict ℕ) (t : PendingTracker)
      (w : World Outside) (o1 o2 : Outside) (pending : List Pod) (nodes : List Node)
      → cluster.list_pending_pods w.outside ≡ (ok pending, o1)
      → cluster.list_nodes o1 ≡ (ok nodes, o2)
      → scale_up H c visit t w ≡ (
        none,
        scale_up_pools H c
            (count_nodes_by_pool nodes)
            (visit (group_pending_by_pool H.labels pending c))
            (record {
              creating = t;
              started = [];
              world = record { outside = o2; trace = w.trace };
            }),
      )
  unfolding scale_up
  scale_up_listed c visit t w o1 o2 pending nodes listed_pods listed_nodes = ground arith

  -- After a cycle that could list the pods and the nodes, in whatever order it visits the pools, a
  -- configured pool has no more nodes in flight than before, or its listed nodes and those in flight
  -- fit its `max_nodes`.
  pub scale_up-within_max :
      (c : Config Selector Template) (visit : Dict ℕ → Dict ℕ) (t : PendingTracker)
      (w : World Outside) (o1 o2 : Outside) (pending : List Pod) (nodes : List Node) (q : String)
      (pool : Pool Selector)
      → cluster.list_pending_pods w.outside ≡ (ok pending, o1)
      → cluster.list_nodes o1 ≡ (ok nodes, o2)
      → pool_by_name c q ≡ some pool
      → let s = (scale_up H c visit t w).1 in
        (entries_for q s.creating.entries ≤ entries_for q t.entries)
        ⊎ (pos (get_int q (count_nodes_by_pool nodes) + entries_for q s.creating.entries)
            ≤ℤ pool.max_nodes)
  scale_up-within_max c visit t w o1 o2 pending nodes q pool listed_pods listed_nodes found =
      rw (scale_up_listed c visit t w o1 o2 pending nodes listed_pods listed_nodes) (
        scale_up_pools-KeepsLimit c (count_nodes_by_pool nodes) q pool.max_nodes pool found refl
          (entries_for q t.entries) _ _ (inl (omega arith)))

  -- A cycle that cannot list the pods or the nodes reports the error, starts no node and leaves the
  -- tracker alone.
  pub scale_up_failed :
      (c : Config Selector Template) (visit : Dict ℕ → Dict ℕ) (t : PendingTracker)
      (w : World Outside) (e : H.Failure)
      → (scale_up H c visit t w).0 ≡ some e
      → ((scale_up H c visit t w).1.creating ≡ t)
        × ((scale_up H c visit t w).1.started ≡ [])
        × ((scale_up H c visit t w).1.world.trace ≡ w.trace)
  unfolding scale_up
  scale_up_failed c visit t w e h = ground arith
