-- ===== src/Kamatera/Types.antt =====
-- internal/kamatera/types.go, and the interface `Client` of client.go.
use kamatera_autoscaler.Base.{ℤ, Bool, String, ◌==◌, any, [], ◌∷◌, ◌≡◌, true, arith, ◌↔◌, ◌⊎◌}
use kamatera_autoscaler.Kube.{Action}

-- The fields that the program fills; the others stay empty and are left out of the request.
pub record CreateServerRequest : Type 0 where
  pub name : String
  pub password : String
  pub ssh_key : String
  pub datacenter : String
  pub image : String
  pub cpu : String
  pub ram : ℤ
  pub disk : String
  pub network : String
  pub billing_cycle : String
  pub power_on : String
  pub script_file : String

pub record Server : Type 0 where
  pub id : String
  pub name : String
  pub power : String
  pub datacenter : String

-- Go's zero value, which goes with an error.
abbrev pub zero_server : Server
zero_server = record { id = ""; name = ""; power = ""; datacenter = "" }

-- `CommandStatus` is a string: the API may send any.
abbrev pub CommandStatus : Type 0
CommandStatus = String

abbrev pub status_initializing : CommandStatus
status_initializing = "initializing"

abbrev pub status_progress : CommandStatus
status_progress = "progress"

abbrev pub status_started : CommandStatus
status_started = "started"

abbrev pub status_complete : CommandStatus
status_complete = "complete"

abbrev pub status_error : CommandStatus
status_error = "error"

abbrev pub status_cancelled : CommandStatus
status_cancelled = "cancelled"

unfoldable pub is_terminal : CommandStatus → Bool
is_terminal s = any (λ t. s == t) (status_complete ∷ status_error ∷ status_cancelled ∷ [])

unfoldable pub is_failure : CommandStatus → Bool
is_failure s = any (λ t. s == t) (status_error ∷ status_cancelled ∷ [])

pub record QueueStatus : Type 0 where
  pub id : String
  pub status : CommandStatus
  pub server : String
  pub log : String

-- `Client`, as the controller uses it.
pub record CloudClient (W E : Type 0) : Type 0 where
  pub create_server : CreateServerRequest → Action W E String
  pub wait_provision : String → String → ℤ → Action W E Server
  pub wait_terminate : String → ℤ → Action W E (Unit {0})
  pub find_server_by_name : String → Action W E Server
  pub terminate_server : String → Action W E String

-- A failed command is terminal, and a terminal command that has not failed is complete.
pub is_terminal-is_failure :
    (s : CommandStatus) → (is_terminal s ≡ true) ↔ ((is_failure s ≡ true) ⊎ (s ≡ status_complete))
unfolding is_terminal is_failure
is_terminal-is_failure s = ground arith
