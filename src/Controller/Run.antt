-- ===== src/Controller/Run.antt =====
-- `Run`, `runScaleUp` and `runScaleDown` of internal/controller/controller.go: the loop over the two
-- tickers, as steps in any order. The goroutine of a creation takes two steps, its request and the wait
-- behind it, which here stand between other steps but not within a cycle; Trail takes the cycles apart.
-- What the goroutines report goes to the log.
pub mod Lock
pub mod Cycles
pub mod Backed
pub mod Whole
pub mod Trail
use kamatera_autoscaler.Base.{
  ℕ, Bool, true, false, if◌then◌else◌, String, List, [], ◌∷◌, ◌++◌, Option, none, some, ok, err,
  ◌≡◌,
}
use kamatera_autoscaler.Base.Dict.{Dict}
use kamatera_autoscaler.Config.{Config, Pool}
use kamatera_autoscaler.Controller.Host.{Host, World}
use kamatera_autoscaler.Controller.Options.{Options, new_tracker, resolve}
use kamatera_autoscaler.Controller.Pending.{PendingTracker, remove}
use kamatera_autoscaler.Controller.ScaleUp.{scale_up}
use kamatera_autoscaler.Controller.ScaleUp.Create.{request_node, await_node}
use kamatera_autoscaler.Controller.ScaleDown.{scale_down}

module _ (H : Host) (o : Options) (c : Config H.labels.Selector H.Template) where
  open H use {Outside, labels.{Selector}}

  -- The tracker, the creations before their request, those that wait for a command, the lock of the
  -- scale-down and the world.
  pub record Controller : Type 0 where
    pub creating : PendingTracker
    pub creations : List (Pool Selector × String)
    pub waiting : List ((Pool Selector × String) × String)
    pub scale_down_in_progress : Bool
    pub world : World Outside

  unfoldable pub new_controller : World Outside → Controller
  new_controller w = record {
    creating = new_tracker o;
    creations = [];
    waiting = [];
    scale_down_in_progress = false;
    world = w;
  }

  unfoldable pub run_scale_up : (Dict ℕ → Dict ℕ) → Controller → Controller
  run_scale_up visit s =
      let (_, cycle) = scale_up H c visit s.creating s.world in
      record s {
        creating = cycle.creating;
        creations = s.creations ++ cycle.started;
        world = cycle.world;
      }

  -- A lock that is held makes the tick be skipped.
  unfoldable pub run_scale_down : ℕ → Controller → Option Controller
  run_scale_down fuel s =
      if s.scale_down_in_progress
      then some s
      else let locked = record s { scale_down_in_progress = true } in
        elim (scale_down H (resolve o) fuel c locked.world) [
          | none ↦ none
          | some (_, sweep) ↦
              some (record locked { world = sweep.world; scale_down_in_progress = false })
        ]

  -- The request of a creation, with the creations that are left. If it fails, the creation is over.
  unfoldable pub request_creation :
      Pool Selector → String → List (Pool Selector × String) → Controller → Controller
  request_creation pool node_name rest s =
      let (r, w) = request_node H c pool node_name s.world in
      elim r [
        | err _ ↦ record s { creating = remove node_name s.creating; creations = rest; world = w }
        | ok cmd_id ↦ record s {
          creations = rest;
          waiting = s.waiting ++ ((pool, node_name), cmd_id) ∷ [];
          world = w;
        }
      ]

  -- The end of a creation that waits, with those that are left.
  unfoldable pub end_creation :
      String → String → List ((Pool Selector × String) × String) → Controller → Controller
  end_creation node_name cmd_id rest s =
      let (_, w) = await_node H (resolve o).node_ready_timeout cmd_id node_name s.world in
      record s { creating = remove node_name s.creating; waiting = rest; world = w }

  -- A turn of the loop, or a step of a creation.
  pub data Turn (s : Controller) (t : Controller) : Type 0 where
    up_tick : (visit : Dict ℕ → Dict ℕ) → t ≡ run_scale_up visit s → Turn s t
    down_tick : (fuel : ℕ) → run_scale_down fuel s ≡ some t → Turn s t
    creation_requests :
        (before after : List (Pool Selector × String)) (pool : Pool Selector) (node_name : String)
        → s.creations ≡ before ++ (pool, node_name) ∷ after
        → t ≡ request_creation pool node_name (before ++ after) s
        → Turn s t
    creation_ends :
        (before after : List ((Pool Selector × String) × String)) (pool : Pool Selector)
        (node_name cmd_id : String)
        → s.waiting ≡ before ++ ((pool, node_name), cmd_id) ∷ after
        → t ≡ end_creation node_name cmd_id (before ++ after) s
        → Turn s t

  -- The first scale-up comes before the loop.
  pub data Run (w : World Outside) : Controller → Type 0 where
    first :
        (visit : Dict ℕ → Dict ℕ) (s : Controller)
        → s ≡ run_scale_up visit (new_controller w)
        → Run w s
    turn : {s t : Controller} → Run w s → Turn s t → Run w t
