-- ===== src/Kube/RestConfig.antt =====
-- `buildRestConfig` and `NewInClusterOrKubeconfig` of internal/kubeclient/kubeclient.go. The calls of
-- k8s.io/client-go, the environment and the home directory are arguments.
use kamatera_autoscaler.Base.{
  if◌then◌else◌, String, ◌==◌, List, [], ◌∷◌, Result, ok, err, map_err, ◌>>=◌,
}

-- The home directory is the empty text where there is none. An error is its text.
pub record RestApi (Rest Clientset : Type 0) : Type 0 where
  pub in_cluster_config : Result String Rest
  pub user_home_dir : String
  pub join : List String → String
  pub build_config_from_flags : String → Result String Rest
  pub new_for_config : Rest → Result String Clientset

pub data RestError : Type 0 where
  no_kubeconfig_path : RestError
  bad_kubeconfig : String → String → RestError
  no_clientset : String → RestError

module _ {Rest Clientset : Type 0} (A : RestApi Rest Clientset) (getenv : String → String) where
  -- The path of the kubeconfig file, or the empty text.
  unfoldable pub kubeconfig_path : String
  kubeconfig_path =
      let path = getenv "KUBECONFIG" in
      if path == ""
      then (if A.user_home_dir == ""
          then ""
          else A.join (A.user_home_dir ∷ ".kube" ∷ "config" ∷ []))
      else path

  unfoldable pub build_rest_config : Result RestError Rest
  unfolding kubeconfig_path
  build_rest_config = elim A.in_cluster_config [
    | ok cfg ↦ ok cfg
    | err _ ↦
        let path = kubeconfig_path in
        if path == ""
        then err no_kubeconfig_path
        else map_err (bad_kubeconfig path) (A.build_config_from_flags path)
  ]

  unfoldable pub new_in_cluster_or_kubeconfig : Result RestError Clientset
  unfolding build_rest_config
  new_in_cluster_or_kubeconfig =
      build_rest_config >>= λ cfg. map_err no_clientset (A.new_for_config cfg)
