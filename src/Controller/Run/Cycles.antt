-- ===== src/Controller/Run/Cycles.antt =====
-- The tracker within a scale-up cycle, against the creations that the cycle starts
-- (internal/controller/scale_up.go).
use mathlib.Core.List.{append_assoc}
use kamatera_autoscaler.Base.{
  subst, ℕ, ℤ, Bool, true, false, ◌||◌, if◌then◌else◌, String, ◌==◌, ==_self, List, [], ◌∷◌, ◌++◌,
  any, is_some, ◌≡◌, refl, arith, inl, inr, Option-cases, Result-cases, ap, sym, zero, suc,
}
use kamatera_autoscaler.Base.Dict.{Dict, lookup, get_int}
use kamatera_autoscaler.Config.{Config, Pool, pool_by_name}
use kamatera_autoscaler.Controller.Host.{Host, World, ask}
use kamatera_autoscaler.Controller.Match.{count_nodes_by_pool, group_pending_by_pool}
use kamatera_autoscaler.Controller.Pending.{PendingTracker, add, count}
use kamatera_autoscaler.Controller.Pending.Laws.{
  TrackerIsValid, add-TrackerIsValid, count-TrackerIsValid, add_known, count_known,
}
use kamatera_autoscaler.Controller.ScaleUp.{
  Cycle, scale_up, scale_up_pools, scale_up_pool, start_nodes, start_node, nodes_to_create,
  generate_node_name,
}

-- Creations that are under way, with the names of their nodes.
abbrev pub Creations : Type 0 → Type 0
Creations S = List (Pool S × String)

module _ {S : Type 0} where
  abbrev pub is_creating : String → Creations S → Bool
  is_creating k = any (λ (_, n). n == k)

  pub is_creating_append :
      (k : String) (xs ys : Creations S)
      → is_creating k (xs ++ ys) ≡ (is_creating k xs || is_creating k ys)
  is_creating_append k [] ys = refl
  is_creating_append k (x ∷ xs) ys = ground (arith, is_creating_append k xs ys)

  -- Every name that the tracker holds is one of a creation.
  pub record IsBacked (t : PendingTracker) (cs : Creations S) : Type 0 where
    pub valid : TrackerIsValid t
    pub backed :
        (k : String) → is_some (lookup k t.entries) ≡ true → any (λ (_, n). n == k) cs ≡ true

  add-IsBacked :
      (pool_name name : String) (gc_now now : ℤ) (t : PendingTracker) (pool : Pool S)
      (cs : Creations S)
      → IsBacked t cs
      → let (added, u) = add pool_name name gc_now now t in
        IsBacked u (if added then cs ++ ((pool, name) ∷ []) else cs)
  add-IsBacked pool_name name gc_now now t pool cs b = record {
    valid = add-TrackerIsValid pool_name name gc_now now t b.valid;
    backed = λ k h. ground (
      arith,
      is_creating_append k cs ((pool, name) ∷ []),
      add_known pool_name name k gc_now now t b.valid h,
      b.backed k,
      ==_self name,
    );
  }

  pub if_append :
      (b : Bool) (xs ys zs : Creations S)
      → (if b then (xs ++ ys) ++ zs else xs ++ ys) ≡ xs ++ (if b then ys ++ zs else ys)
  if_append true xs ys zs = append_assoc xs ys zs
  if_append false xs ys zs = refl

module _ (H : Host) (c : Config H.labels.Selector H.Template) where
  open H use {Outside, labels.{Selector}}

  -- A cycle backs its tracker by the creations from before and those that it started.
  abbrev pub IsBackedCycle : Creations Selector → Cycle H → Type 0
  IsBackedCycle cs s = IsBacked s.creating (cs ++ s.started)

  pub start_node-IsBacked :
      (name : String) (pool : Pool Selector) (cs : Creations Selector) (s : Cycle H)
      → IsBackedCycle cs s
      → IsBackedCycle cs (start_node H name pool s)
  unfolding start_node
  start_node-IsBacked name pool cs s b =
      let (node_name, w1) = generate_node_name H name s.world in
      let (gc_now, w2) = ask H.now w1 in
      let (created_at, w3) = ask H.now w2 in
      subst (IsBacked (add name node_name gc_now created_at s.creating).1)
        (if_append (add name node_name gc_now created_at s.creating).0 cs s.started
          ((pool, node_name) ∷ []))
        (add-IsBacked name node_name gc_now created_at s.creating pool (cs ++ s.started) b)

  start_nodes-IsBacked :
      (n : ℕ) (name : String) (pool : Pool Selector) (cs : Creations Selector) (s : Cycle H)
      → IsBackedCycle cs s
      → IsBackedCycle cs (start_nodes H n name pool s)
  unfolding start_nodes
  start_nodes-IsBacked zero name pool cs s b = b
  start_nodes-IsBacked (suc n) name pool cs s b =
      start_nodes-IsBacked n name pool cs (start_node H name pool s)
        (start_node-IsBacked name pool cs s b)

  scale_up_pool-IsBacked :
      (nodes : Dict ℕ) (name : String) (pending : ℕ) (cs : Creations Selector) (s : Cycle H)
      → IsBackedCycle cs s
      → IsBackedCycle cs (scale_up_pool H c nodes (name, pending) s)
  unfolding scale_up_pool
  scale_up_pool-IsBacked nodes name pending cs s b = elim (Option-cases (pool_by_name c name)) [
    | inl missing ↦ rw (missing, scale_up_pool) b
    | inr (pool, found) ↦
        let (t, w) = ask H.now s.world in
        let (in_flight, u) = count name t s.creating in
        rw (found, scale_up_pool)
          (start_nodes-IsBacked
            (nodes_to_create pool.max_nodes (get_int name nodes) in_flight pending) name pool cs
            (record s { creating = u; world = w })
            (record {
              valid = count-TrackerIsValid name t s.creating b.valid;
              backed = λ k h. b.backed k (count_known name k t s.creating b.valid h);
            }))
  ]

  scale_up_pools-IsBacked :
      (nodes ps : Dict ℕ) (cs : Creations Selector) (s : Cycle H)
      → IsBackedCycle cs s
      → IsBackedCycle cs (scale_up_pools H c nodes ps s)
  unfolding scale_up_pools
  scale_up_pools-IsBacked nodes [] cs s b = b
  scale_up_pools-IsBacked nodes ((name, pending) ∷ ps) cs s b =
      scale_up_pools-IsBacked nodes ps cs (scale_up_pool H c nodes (name, pending) s)
        (scale_up_pool-IsBacked nodes name pending cs s b)

  pub append_nothing : (xs : Creations Selector) → xs ++ [] ≡ xs
  append_nothing [] = refl
  append_nothing (x ∷ xs) = ap (λ ys. x ∷ ys) (append_nothing xs)

  pub scale_up-IsBacked :
      (visit : Dict ℕ → Dict ℕ) (t : PendingTracker) (w : World Outside) (cs : Creations Selector)
      → IsBacked t cs
      → IsBackedCycle cs (scale_up H c visit t w).1
  unfolding scale_up
  scale_up-IsBacked visit t w cs b =
      let b' = subst (IsBacked t) (sym (append_nothing cs)) b in
      elim (Result-cases (ask H.cluster.list_pending_pods w).0) [
        | inr (e, failed) ↦ rw (failed, scale_up) b'
        | inl (pods, listed) ↦
            let w1 = (ask H.cluster.list_pending_pods w).1 in
            elim (Result-cases (ask H.cluster.list_nodes w1).0) [
              | inr (e, failed) ↦ rw (listed, failed, scale_up) b'
              | inl (nodes, got) ↦
                  rw (listed, got, scale_up)
                    (scale_up_pools-IsBacked (count_nodes_by_pool nodes)
                      (visit (group_pending_by_pool H.labels pods c)) cs
                      (record {
                        creating = t;
                        started = [];
                        world = (ask H.cluster.list_nodes w1).1;
                      })
                      b')
            ]
      ]
