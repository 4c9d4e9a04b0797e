-- ===== src/Controller/ScaleUp/Create.antt =====
-- `createNode` and `buildNetwork` of internal/controller/scale_up.go. The goroutine touches the
-- tracker only by its deferred `Remove`, so the tracker here is the one at its return.
use kamatera_autoscaler.Base.{
  String, ◌<>◌, ◌==◌, List, [], ◌∷◌, none, some, ok, err, Result, ℤ, if◌then◌else◌, ◌≡◌, ◌⊎◌, inl,
  inr, arith, true, false, Bool, Result-cases,
}
use kamatera_autoscaler.Base.Dict.{lookup}
use kamatera_autoscaler.Base.Decimal.{decimal}
use kamatera_autoscaler.Config.{Config, Pool}
use kamatera_autoscaler.Kamatera.Types.{CreateServerRequest, Server}
use kamatera_autoscaler.Controller.Host.{Host, World, creates, ask, change}
use kamatera_autoscaler.Controller.CloudInit.{RenderError, render_cloud_init}
use kamatera_autoscaler.Controller.Pending.{PendingTracker, remove}
use kamatera_autoscaler.Controller.Pending.Laws.{lookup-remove}

-- `strings.Join`
unfoldable pub join : String → List String → String
join sep [] = ""
join sep (s ∷ []) = s
join sep (s ∷ (t ∷ ts)) = s <> (sep <> join sep (t ∷ ts))

unfoldable pub build_network : String → String
unfolding join
build_network vlan_name = join " " (
    if vlan_name == ""
    then "name=wan,ip=auto" ∷ []
    else "name=wan,ip=auto" ∷ ("name=" <> (vlan_name <> ",ip=auto")) ∷ [])

-- What the log says at the end of a creation.
pub data Creation (E : Type 0) : Type 0 where
  not_rendered : RenderError → Creation E
  recovered : Server → Creation E
  create_failed : E → Creation E
  wait_failed : E → Creation E
  provisioned : Server → Creation E

-- The outcomes before and after the request was accepted.
abbrev pub not_sent : {E : Type 0} → Creation E → Bool
not_sent (not_rendered e) = true
not_sent (recovered s) = false
not_sent (create_failed e) = false
not_sent (wait_failed e) = false
not_sent (provisioned s) = false

abbrev pub accepted : {E : Type 0} → Creation E → Bool
accepted (not_rendered e) = false
accepted (recovered s) = false
accepted (create_failed e) = false
accepted (wait_failed e) = true
accepted (provisioned s) = true

module _ (H : Host) where
  open H use {Outside, Failure, Template, cloud, as_recovered, labels.{Selector}}

  unfoldable pub create_request :
      Config Selector Template → Pool Selector → String → String → CreateServerRequest
  create_request c pool node_name cloud_init = record {
    name = node_name;
    password = "__generate__";
    ssh_key = c.creds.ssh_pub_key;
    datacenter = c.datacenter;
    image = pool.image;
    cpu = decimal pool.cpu_cores <> pool.cpu_type;
    ram = pool.ram_mb;
    disk = "size=" <> decimal pool.disk_gb;
    network = build_network c.vlan_name;
    billing_cycle = "hourly";
    power_on = "yes";
    script_file = cloud_init;
  }

  -- The body up to the request: how it ends there, or the id of the command to wait for.
  unfoldable pub request_node :
      Config Selector Template
      → Pool Selector
      → String
      → World Outside
      → Result (Creation Failure) String × World Outside
  request_node c pool node_name w = elim (render_cloud_init H c pool c.creds.join_token) [
    | err e ↦ (err (not_rendered e), w)
    | ok cloud_init ↦
        let req = create_request c pool node_name cloud_init in
        let (r, w1) = change (creates req) (cloud.create_server req) w in
        (
          elim r [
            | err e ↦ err (elim (as_recovered e) [ some s ↦ recovered s | none ↦ create_failed e ])
            | ok cmd_id ↦ ok cmd_id
          ],
          w1,
        )
  ]

  -- The wait behind it, with `nodeReadyTimeout`.
  unfoldable pub await_node : ℤ → String → String → World Outside → Creation Failure × World Outside
  await_node node_ready_timeout cmd_id node_name w =
      let (s, w1) = ask (cloud.wait_provision cmd_id node_name node_ready_timeout) w in
      (elim s [ ok server ↦ provisioned server | err e ↦ wait_failed e ], w1)

  -- The body.
  unfoldable pub provision_node :
      ℤ
      → Config Selector Template
      → Pool Selector
      → String
      → World Outside
      → Creation Failure × World Outside
  unfolding request_node await_node
  provision_node node_ready_timeout c pool node_name w =
      let (r, w1) = request_node c pool node_name w in
      elim r [ err r ↦ (r, w1) | ok cmd_id ↦ await_node node_ready_timeout cmd_id node_name w1 ]

  unfoldable pub create_node :
      ℤ
      → Config Selector Template
      → Pool Selector
      → String
      → PendingTracker
      → World Outside
      → Creation Failure × PendingTracker × World Outside
  create_node node_ready_timeout c pool node_name t w =
      let (r, w') = provision_node node_ready_timeout c pool node_name w in
      (r, remove node_name t, w')

  -- A creation sends one request at most: none where the template does not render, and else the
  -- request for the pool with the rendered text, which succeeded exactly on the outcomes that waited.
  pub create_node_sends_once :
      (timeout : ℤ) (c : Config Selector Template) (pool : Pool Selector) (node_name : String)
      (t : PendingTracker) (w : World Outside)
      → let (r, _, w') = create_node timeout c pool node_name t w in
        ((not_sent r ≡ true) × (w' ≡ w))
        ⊎ ((not_sent r ≡ false)
            × (text : String) × (render_cloud_init H c pool c.creds.join_token ≡ ok text)
            × (w'.trace
                ≡ record {
                  change = creates (create_request c pool node_name text);
                  succeeded = accepted r;
                }
                  ∷ w.trace))
  unfolding create_node provision_node
  create_node_sends_once timeout c pool node_name t w =
      elim (Result-cases (render_cloud_init H c pool c.creds.join_token)) [
        | inl (text, e) ↦ inr (ground arith, text, e, ground arith)
        | inr (e, failed) ↦ inl (ground arith, ground arith)
      ]

  -- Whatever the outcome, the node is no longer in flight when the creation ends, and every other
  -- entry stays.
  pub create_node-lookup :
      (timeout : ℤ) (c : Config Selector Template) (pool : Pool Selector) (node_name k : String)
      (t : PendingTracker) (w : World Outside)
      → lookup k (create_node timeout c pool node_name t w).1.entries
        ≡ (if node_name == k then none else lookup k t.entries)
  unfolding create_node
  create_node-lookup timeout c pool node_name k t w = lookup-remove node_name k t
