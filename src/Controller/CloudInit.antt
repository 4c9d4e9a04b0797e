-- ===== src/Controller/CloudInit.antt =====
-- internal/controller/cloudinit.go
use kamatera_autoscaler.Base.{String, none, some, Result, err, map_err}
use kamatera_autoscaler.Config.{Config, Pool}
use kamatera_autoscaler.Controller.Host.{Host}

pub data RenderError : Type 0 where
  template_not_loaded : RenderError
  render_failed : String → RenderError

module _ (H : Host) where
  open H use {Template, execute, labels.{Selector}}

  unfoldable pub render_cloud_init :
      Config Selector Template → Pool Selector → String → Result RenderError String
  render_cloud_init c pool join_token = elim c.cloud_init [
    | none ↦ err template_not_loaded
    | some t ↦ map_err render_failed (
        execute t (record {
          server_ip = c.server_ip;
          join_token = join_token;
          node_labels = pool.node_labels;
          node_taints = pool.node_taints;
        }))
  ]
