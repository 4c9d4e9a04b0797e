-- ===== src/Kube.antt =====
-- internal/kubeclient/kubeclient.go: the interfaces that the controller uses, and the client that
-- implements them over a Kubernetes API. Pods and nodes have the fields that the program reads.
pub mod RestConfig
use kamatera_autoscaler.Base.{ℤ, Bool, String, ◌<>◌, List, Option, Result, map_err}
use kamatera_autoscaler.Base.Dict.{Dict}

pub record PodCondition : Type 0 where
  pub kind : String
  pub status : String
  pub reason : String
  pub message : String

pub record OwnerReference : Type 0 where
  pub kind : String

pub record Pod : Type 0 where
  pub namespace : String
  pub name : String
  pub phase : String
  pub conditions : List PodCondition
  pub node_selector : Dict String
  pub owner_references : List OwnerReference
  pub annotations : Dict String
  pub deletion_timestamp : Option ℤ

-- The creation time of a node is `none` where it is Go's zero time.
pub record Node : Type 0 where
  pub name : String
  pub labels : Dict String
  pub creation_timestamp : Option ℤ

-- A call from the program: its result, and the world after it.
abbrev pub Action : Type 0 → Type 0 → Type 0 → Type 0
Action W E A = W → Result E A × W

-- `PodLister`, `NodeLister` and `NodeMutator`, with the two questions that `drainNode` asks
-- k8s.io/apimachinery about an error.
pub record Cluster (W E : Type 0) : Type 0 where
  pub list_pending_pods : Action W E (List Pod)
  pub list_pods_on_node : String → Action W E (List Pod)
  pub list_nodes : Action W E (List Node)
  pub cordon : String → Action W E (Unit {0})
  pub evict : Pod → Action W E (Unit {0})
  pub delete : String → Action W E (Unit {0})
  pub is_too_many_requests : E → Bool
  pub is_not_found : E → Bool

-- The part of `kubernetes.Interface` that the client calls.
pub record KubeApi (W E : Type 0) : Type 0 where
  pub list_pods : String → Action W E (List Pod)
  pub list_all_nodes : Action W E (List Node)
  pub patch_node : String → String → Action W E (Unit {0})
  pub evict_v1 : String → String → Action W E (Unit {0})
  pub delete_node : String → Action W E (Unit {0})
  pub too_many_requests : E → Bool
  pub not_found : E → Bool

-- An error with the text that `fmt.Errorf("...: %w", err)` puts in front of it.
pub record Wrapped (E : Type 0) : Type 0 where
  pub context : String
  pub cause : E

abbrev pub with_context : {W E A : Type 0} → String → Action W E A → Action W (Wrapped E) A
with_context text call w =
    let (r, w') = call w in (map_err (λ e. record { context = text; cause = e }) r, w')

module _ {W E : Type 0} (K : KubeApi W E) where
  unfoldable pub list_pending_pods : Action W (Wrapped E) (List Pod)
  list_pending_pods = with_context "list pending pods" (K.list_pods "status.phase=Pending")

  unfoldable pub list_pods_on_node : String → Action W (Wrapped E) (List Pod)
  list_pods_on_node node_name =
      with_context ("list pods on node " <> node_name) (K.list_pods ("spec.nodeName=" <> node_name))

  unfoldable pub list_nodes : Action W (Wrapped E) (List Node)
  list_nodes = with_context "list nodes" K.list_all_nodes

  unfoldable pub cordon : String → Action W (Wrapped E) (Unit {0})
  cordon node_name =
      with_context ("cordon node " <> node_name)
        (K.patch_node node_name "{\"spec\":{\"unschedulable\":true}}")

  unfoldable pub evict : Pod → Action W (Wrapped E) (Unit {0})
  evict pod =
      with_context ("evict pod " <> (pod.namespace <> ("/" <> pod.name)))
        (K.evict_v1 pod.namespace pod.name)

  unfoldable pub delete : String → Action W (Wrapped E) (Unit {0})
  delete node_name = with_context ("delete node " <> node_name) (K.delete_node node_name)

  -- `Client` as the three interfaces. The questions about errors look through the wrapping.
  abbrev pub client : Cluster W (Wrapped E)
  client = record {
    list_pending_pods = list_pending_pods;
    list_pods_on_node = list_pods_on_node;
    list_nodes = list_nodes;
    cordon = cordon;
    evict = evict;
    delete = delete;
    is_too_many_requests = λ e. K.too_many_requests e.cause;
    is_not_found = λ e. K.not_found e.cause;
  }
