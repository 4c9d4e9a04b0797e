-- ===== src/Controller/ScaleUp/Starts.antt =====
-- How many nodes a scale-up cycle (internal/controller/scale_up.go) starts for a pool.
use Prim.Native.Nat.{min}
use kamatera_autoscaler.Base.{
  ℕ, zero, suc, ◌+◌, ◌-◌, Bool, true, false, if◌then◌else◌, pos, String, List, [], ◌∷◌, ◌++◌,
  length, length-append, some, ◌≡◌, arith, ap, ◌∙◌,
}
use kamatera_autoscaler.Base.Dict.{Dict, get_int}
use kamatera_autoscaler.Config.{Config, Pool, pool_by_name}
use kamatera_autoscaler.Controller.Host.{Host, ask}
use kamatera_autoscaler.Controller.Pending.{add, count}
use kamatera_autoscaler.Controller.ScaleUp.{
  Cycle, nodes_to_create, generate_node_name, start_node, start_nodes, scale_up_pool,
}
use kamatera_autoscaler.Controller.ScaleUp.Bounds.{nodes_to_create-min}

module _ (H : Host) where
  open H use {Outside, Template, now, labels.{Selector}}

  -- Whether the tracker takes the name that the next pass over `toCreate` generates.
  abbrev pub is_taken : String → Cycle H → Bool
  is_taken pool_name s =
      let (node_name, w1) = generate_node_name H pool_name s.world in
      let (gc_now, w2) = ask now w1 in
      let (created_at, w3) = ask now w2 in (add pool_name node_name gc_now created_at s.creating).0

  -- How many of so many passes generate a name that the tracker holds already.
  abbrev pub refusals : ℕ → String → Pool Selector → Cycle H → ℕ
  refusals zero pool_name pool s = 0
  refusals (suc n) pool_name pool s =
      (if is_taken pool_name s then 0 else 1)
      + refusals n pool_name pool (start_node H pool_name pool s)

  length_if :
      (b : Bool) (xs : List (Pool Selector × String)) (x : Pool Selector × String)
      → length (if b then xs ++ (x ∷ []) else xs) + (if b then 0 else 1) ≡ 1 + length xs
  length_if true xs x = omega (arith, length-append xs (x ∷ []))
  length_if false xs x = omega arith

  start_node-length :
      (name : String) (pool : Pool Selector) (s : Cycle H)
      → length (start_node H name pool s).started + (if is_taken name s then 0 else 1)
        ≡ 1 + length s.started
  unfolding start_node
  start_node-length name pool s =
      length_if (is_taken name s) s.started (pool, (generate_node_name H name s.world).0)

  start_nodes-length :
      (n : ℕ) (name : String) (pool : Pool Selector) (s : Cycle H)
      → length (start_nodes H n name pool s).started + refusals n name pool s ≡ n + length s.started
  unfolding start_nodes
  start_nodes-length zero name pool s = omega arith
  start_nodes-length (suc n) name pool s = omega (
    arith,
    start_nodes-length n name pool (start_node H name pool s),
    start_node-length name pool s,
  )

  -- For a configured pool whose `max_nodes` is not negative, a cycle starts a node, or generates a name
  -- that is in flight already, for each pending pod that no node in flight covers, as far as `max_nodes`
  -- leaves room.
  pub scale_up_pool-starts :
      (c : Config Selector Template) (nodes : Dict ℕ) (name : String) (pending max : ℕ)
      (pool : Pool Selector) (s : Cycle H)
      → pool_by_name c name ≡ some pool
      → pool.max_nodes ≡ pos max
      → let (t, w) = ask now s.world in
        let (in_flight, u) = count name t s.creating in
        let n = min (pending - in_flight) (max - (get_int name nodes + in_flight)) in
        length (scale_up_pool H c nodes (name, pending) s).started
          + refusals n name pool (record s { creating = u; world = w })
        ≡ n + length s.started
  unfolding scale_up_pool
  scale_up_pool-starts c nodes name pending max pool s found limit =
      let (t, w) = ask now s.world in
      let (in_flight, u) = count name t s.creating in
      let n = min (pending - in_flight) (max - (get_int name nodes + in_flight)) in
      let current = get_int name nodes in
      let same : nodes_to_create pool.max_nodes current in_flight pending ≡ n =
        ap (λ m. nodes_to_create m current in_flight pending) limit
        ∙ nodes_to_create-min max current in_flight pending in
      rw (found, scale_up_pool, same)
        (start_nodes-length n name pool (record s { creating = u; world = w }))
