-- ===== src/Controller/Host.antt =====
-- What the controller (internal/controller) works with: the clients of kubeclient and kamatera, the
-- clock, the random source and the template engine. A call that changes something outside is noted
-- in a trace, newest first, so that theorems can speak of what a cycle did.
use kamatera_autoscaler.Base.{ℕ, ℤ, Bool, true, false, String, List, ◌∷◌, Option, Result, ok, err}
use kamatera_autoscaler.Config.{LabelsApi}
use kamatera_autoscaler.Kube.{Cluster, Action, Pod}
use kamatera_autoscaler.Kamatera.Types.{CloudClient, CreateServerRequest, Server}

-- The values that a cloud-init template may use.
pub record CloudInitVars : Type 0 where
  pub server_ip : String
  pub join_token : String
  pub node_labels : String
  pub node_taints : String

pub record Host : Type 1 where
  pub labels : LabelsApi
  pub Template : Type 0
  pub execute : Template → CloudInitVars → Result String String
  pub Outside : Type 0
  pub Failure : Type 0
  pub cluster : Cluster Outside Failure
  pub cloud : CloudClient Outside Failure
  pub is_server_not_found : Failure → Bool
  pub as_recovered : Failure → Option Server
  -- `time.Now`, in nanoseconds
  pub now : Outside → ℤ × Outside
  -- `rand.Read` of three bytes
  pub random_bytes : Outside → (ℕ × ℕ × ℕ) × Outside
  -- the wait for a time or for the end of the context, and its error in the second case
  pub pause : ℤ → Outside → Option Failure × Outside

pub data Change : Type 0 where
  cordons : String → Change
  evicts : Pod → Change
  deletes : String → Change
  creates : CreateServerRequest → Change
  terminates : String → Change

-- A change that was asked for, and whether the call succeeded.
pub record Event : Type 0 where
  pub change : Change
  pub succeeded : Bool

-- The events that ask for a server.
abbrev pub is_creation : Event → Bool
is_creation e = elim e.change [
  | cordons n ↦ false
  | evicts p ↦ false
  | deletes n ↦ false
  | creates req ↦ true
  | terminates id ↦ false
]

pub record World (O : Type 0) : Type 0 where
  pub outside : O
  pub trace : List Event

abbrev pub succeeds : {E A : Type 0} → Result E A → Bool
succeeds (ok a) = true
succeeds (err e) = false

-- A call that only asks.
abbrev pub ask : {O A : Type 0} → (O → A × O) → World O → A × World O
ask call w = let (r, o) = call w.outside in (r, record w { outside = o })

-- A call that changes something.
abbrev pub change : {O E A : Type 0} → Change → Action O E A → Action (World O) E A
change c call w =
    let (r, o) = call w.outside in
    (r, record { outside = o; trace = record { change = c; succeeded = succeeds r } ∷ w.trace })
