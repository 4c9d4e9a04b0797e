-- ===== src/Controller/Drain.antt =====
-- internal/controller/drain.go: cordoning a node and evicting its pods.
pub mod Evictable
pub mod Outcome
pub mod Trace
pub mod Ends
use kamatera_autoscaler.Base.{
  ℕ, zero, suc, ℤ, pos, ◌+ℤ◌, ltb_ℤ, Bool, true, false, ◌||◌, if◌then◌else◌, String, ◌==◌, List, [],
  ◌∷◌, any, Option, none, some, Result, ok, err, is_some,
}
use kamatera_autoscaler.Base.Dict.{lookup}
use kamatera_autoscaler.Kube.{Pod, OwnerReference}
use kamatera_autoscaler.Controller.Host.{Host, World, ask, change, cordons, evicts}

unfoldable pub is_daemon_set_pod : Pod → Bool
is_daemon_set_pod p = any (λ (o : OwnerReference). o.kind == "DaemonSet") p.owner_references

unfoldable pub is_mirror_pod : Pod → Bool
is_mirror_pod p = is_some (lookup "kubernetes.io/config.mirror" p.annotations)

unfoldable pub filter_evictable : List Pod → List Pod
filter_evictable [] = []
filter_evictable (p ∷ ps) =
    let rest = filter_evictable ps in
    if is_daemon_set_pod p || is_mirror_pod p
    then rest
    else if is_some p.deletion_timestamp
    then rest
    else p ∷ rest

-- `backoff`, in nanoseconds.
unfoldable pub backoff : Bool → ℤ
backoff blocked = if blocked then pos 5000000000 else pos 2000000000

pub data DrainError (E : Type 0) : Type 0 where
  cordon_failed : E → DrainError E
  deadline_exceeded : String → DrainError E
  list_failed : String → E → DrainError E
  evict_failed : String → String → E → DrainError E
  cancelled : E → DrainError E

-- How a pass of the loop ends.
pub data Pass (E W : Type 0) : Type 0 where
  drained : W → Pass E W
  failed : DrainError E → W → Pass E W
  again : W → Pass E W

module _ (H : Host) where
  open H use {Outside, Failure, cluster, now, pause}

  -- The loop over the evictable pods: whether a disruption budget blocked one, or a fatal error.
  unfoldable pub evict_all :
      List Pod → Bool → World Outside → Result (DrainError Failure) Bool × World Outside
  evict_all [] blocked w = (ok blocked, w)
  evict_all (p ∷ ps) blocked w =
      let (r, w') = change (evicts p) (cluster.evict p) w in
      elim r [
        | ok _ ↦ evict_all ps blocked w'
        | err e ↦ elim (cluster.is_too_many_requests e) [
          | true ↦ evict_all ps true w'
          | false ↦ elim (cluster.is_not_found e) [
            | true ↦ evict_all ps blocked w'
            | false ↦ (err (evict_failed p.namespace p.name e), w')
          ]
        ]
      ]

  -- The evictions of a pass and the wait behind them.
  unfoldable pub evict_pass : List Pod → World Outside → Pass Failure (World Outside)
  evict_pass [] w = drained w
  evict_pass (p ∷ ps) w =
      let (r, w1) = evict_all (p ∷ ps) false w in
      elim r [
        | err e ↦ failed e w1
        | ok blocked ↦
            let (stopped, w2) = ask (pause (backoff blocked)) w1 in
            elim stopped [ some e ↦ failed (cancelled e) w2 | none ↦ again w2 ]
      ]

  unfoldable pub drain_pass : String → ℤ → World Outside → Pass Failure (World Outside)
  drain_pass node_name deadline w =
      let (t, w1) = ask now w in
      if ltb_ℤ deadline t
      then failed (deadline_exceeded node_name) w1
      else let (r, w2) = ask (cluster.list_pods_on_node node_name) w1 in
        elim r [
          | err e ↦ failed (list_failed node_name e) w2
          | ok ps ↦ evict_pass (filter_evictable ps) w2
        ]

  -- `none` where the fuel runs out.
  unfoldable pub drain_loop :
      ℕ
      → String
      → ℤ
      → World Outside
      → Option (Result (DrainError Failure) (Unit {0}) × World Outside)
  drain_loop zero node_name deadline w = none
  drain_loop (suc fuel) node_name deadline w = elim (drain_pass node_name deadline w) [
    | drained w' ↦ some (ok tt, w')
    | failed e w' ↦ some (err e, w')
    | again w' ↦ drain_loop fuel node_name deadline w'
  ]

  unfoldable pub drain_node :
      ℕ
      → String
      → ℤ
      → World Outside
      → Option (Result (DrainError Failure) (Unit {0}) × World Outside)
  drain_node fuel node_name timeout w =
      let (r, w1) = change (cordons node_name) (cluster.cordon node_name) w in
      elim r [
        | err e ↦ some (err (cordon_failed e), w1)
        | ok _ ↦ let (t, w2) = ask now w1 in drain_loop fuel node_name (t +ℤ timeout) w2
      ]
