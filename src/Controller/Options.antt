-- ===== src/Controller/Options.antt =====
-- `Options`, `orDefault` and the timing that `New` sets (internal/controller/controller.go). Times are
-- in nanoseconds.
use kamatera_autoscaler.Base.{ℤ, pos, leb_ℤ, ◌<ℤ◌, if◌then◌else◌, ◌≡◌, arith}
use kamatera_autoscaler.Controller.Pending.{PendingTracker, new_pending_tracker}

pub record Options : Type 0 where
  pub scale_up_every : ℤ
  pub scale_down_every : ℤ
  pub node_ready_timeout : ℤ
  pub idle_threshold : ℤ
  pub drain_timeout : ℤ

unfoldable pub or_default : ℤ → ℤ → ℤ
or_default d def = if leb_ℤ d (pos 0) then def else d

abbrev pub default_options : Options
default_options = record {
  scale_up_every = pos 30000000000;
  scale_down_every = pos 600000000000;
  node_ready_timeout = pos 300000000000;
  idle_threshold = pos 600000000000;
  drain_timeout = pos 300000000000;
}

-- What the constructor keeps of its options.
unfoldable pub resolve : Options → Options
unfolding or_default
resolve o = record {
  scale_up_every = or_default o.scale_up_every default_options.scale_up_every;
  scale_down_every = or_default o.scale_down_every default_options.scale_down_every;
  node_ready_timeout = or_default o.node_ready_timeout default_options.node_ready_timeout;
  idle_threshold = or_default o.idle_threshold default_options.idle_threshold;
  drain_timeout = or_default o.drain_timeout default_options.drain_timeout;
}

-- The tracker that the constructor makes.
unfoldable pub new_tracker : Options → PendingTracker
unfolding new_pending_tracker
new_tracker o = new_pending_tracker (resolve o).node_ready_timeout

pub record IsPositive (o : Options) : Type 0 where
  pub up : pos 0 <ℤ o.scale_up_every
  pub down : pos 0 <ℤ o.scale_down_every
  pub ready : pos 0 <ℤ o.node_ready_timeout
  pub idle : pos 0 <ℤ o.idle_threshold
  pub drain : pos 0 <ℤ o.drain_timeout

-- A controller's times are positive whatever its options, and positive options are kept.
pub resolve-IsPositive : (o : Options) → IsPositive (resolve o)
unfolding resolve
resolve-IsPositive o = ground arith

pub resolve_positive : (o : Options) → IsPositive o → resolve o ≡ o
unfolding resolve
resolve_positive o p = ground arith
