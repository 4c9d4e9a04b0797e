-- ===== src/Controller/Run/Whole.antt =====
-- The two steps of a creation in the loop of internal/controller/controller.go, taken together.
use kamatera_autoscaler.Base.{String, List, err, ok, ◌≡◌, ◌⊎◌, inl, inr, arith, Result-cases}
use kamatera_autoscaler.Config.{Config, Pool}
use kamatera_autoscaler.Controller.Host.{Host}
use kamatera_autoscaler.Controller.Options.{Options, resolve}
use kamatera_autoscaler.Controller.ScaleUp.Create.{
  Creation, request_node, provision_node, create_node,
}
use kamatera_autoscaler.Controller.Run.{Controller, request_creation, end_creation}

module _ (H : Host) (o : Options) (c : Config H.labels.Selector H.Template) where
  open H use {labels.{Selector}}

  -- The controller behind a whole `createNode`.
  abbrev created :
      Pool Selector → String → List (Pool Selector × String) → Controller H o c → Controller H o c
  created pool node_name rest s =
      let (_, creating, w) =
        create_node H (resolve o).node_ready_timeout c pool node_name s.creating s.world in
      record s { creating = creating; creations = rest; world = w }

  -- With nothing between them, the steps of a creation do what `createNode` does: the request alone
  -- where it fails, and else the request and the end.
  creation-create_node :
      (pool : Pool Selector) (node_name : String) (rest : List (Pool Selector × String))
      (s : Controller H o c)
      → let t = request_creation H o c pool node_name rest s in
        ((x : Creation H.Failure) × ((request_node H c pool node_name s.world).0 ≡ err x)
          × (t ≡ created pool node_name rest s))
        ⊎ ((cmd_id : String) × ((request_node H c pool node_name s.world).0 ≡ ok cmd_id)
            × (end_creation H o c node_name cmd_id s.waiting t ≡ created pool node_name rest s))
  unfolding request_creation end_creation create_node provision_node
  creation-create_node pool node_name rest s =
      elim (Result-cases (request_node H c pool node_name s.world).0) [
        | inl (cmd_id, e) ↦ inr (cmd_id, e, ground arith)
        | inr (x, e) ↦ inl (x, e, ground arith)
      ]
