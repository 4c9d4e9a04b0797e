-- ===== src/Controller/Drain/Evictable.antt =====
-- Which pods `filterEvictable` (internal/controller/drain.go) keeps.
use kamatera_autoscaler.Base.{
  not, ◌&&◌, List, [], ◌∷◌, keep_if, is_some, ◌≡◌, refl, arith, Bool, All, true, keep_if-All,
}
use kamatera_autoscaler.Kube.{Pod}
use kamatera_autoscaler.Controller.Drain.{is_daemon_set_pod, is_mirror_pod, filter_evictable}

-- No daemon set owns the pod, it is no mirror pod, and it is not on its way out.
abbrev pub can_evict : Pod → Bool
can_evict p =
    not (is_daemon_set_pod p) && not (is_mirror_pod p) && not (is_some p.deletion_timestamp)

-- `filterEvictable` keeps exactly the pods that can be evicted, in their order.
pub filter_evictable-keep_if : (ps : List Pod) → filter_evictable ps ≡ keep_if can_evict ps
unfolding filter_evictable
filter_evictable-keep_if [] = refl
filter_evictable-keep_if (p ∷ ps) = ground (arith, filter_evictable-keep_if ps)

pub filter_evictable-All : (ps : List Pod) → All (λ p. can_evict p ≡ true) (filter_evictable ps)
filter_evictable-All ps = rw filter_evictable-keep_if (keep_if-All can_evict ps)
