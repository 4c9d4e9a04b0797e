-- ===== src/Config.antt =====
-- internal/config/config.go: the pools, the checks of `Validate` and the lookup of a pool by name.
-- The label selectors of k8s.io/apimachinery are an argument, `LabelsApi`.
pub mod Valid
pub mod Reserved
pub mod Load
use kamatera_autoscaler.Base.{
  ℕ, suc, ℤ, pos, leb_ℤ, ltb_ℤ, Bool, true, false, not, if◌then◌else◌, String, ◌==◌, List, [], ◌∷◌,
  ◌>>◌, any, Option, none, some, Result, ok, err, map_err,
}
use kamatera_autoscaler.Base.Dict.{Dict}

-- `labels.Parse` and `Selector.Matches`. A failed parse gives the text of its error.
pub record LabelsApi : Type 1 where
  pub Selector : Type 0
  pub parse : String → Result String Selector
  pub matches : Selector → Dict String → Bool

pub record Pool (Selector : Type 0) : Type 0 where
  pub name : String
  pub cpu_type : String
  pub cpu_cores : ℤ
  pub ram_mb : ℤ
  pub disk_gb : ℤ
  pub image : String
  pub min_nodes : ℤ
  pub max_nodes : ℤ
  pub node_labels : String
  pub node_taints : String
  pub pod_selector : String
  pub parsed_selector : Option Selector

pub record Credentials : Type 0 where
  pub kamatera_client_id : String
  pub kamatera_secret : String
  pub join_token : String
  pub ssh_pub_key : String

pub record Config (Selector Template : Type 0) : Type 0 where
  pub datacenter : String
  pub vlan_name : String
  pub server_ip : String
  pub cloud_init_template_path : String
  pub pools : List (Pool Selector)
  pub cloud_init : Option Template
  pub creds : Credentials

-- What `Validate` returns. A pool is named, or counted where it has no name.
pub data ConfigError : Type 0 where
  datacenter_required template_required pools_required : ConfigError
  name_required : ℕ → ConfigError
  duplicate_name : String → ConfigError
  bad_cpu_type : String → String → ConfigError
  cores_not_positive ram_not_positive disk_not_positive image_required : String → ConfigError
  min_negative : String → ConfigError
  max_below_min : String → ℤ → ℤ → ConfigError
  selector_required : String → ConfigError
  bad_selector : String → String → String → ConfigError

unfoldable pub is_valid_cpu_type : String → Bool
is_valid_cpu_type t = any (λ c. t == c) ("A" ∷ "B" ∷ "D" ∷ "T" ∷ [])

-- `if bad { return e }`
abbrev pub refuse_if {ℓ} : {E : Type ℓ} → Bool → E → Result E (Unit {ℓ})
refuse_if true e = err e
refuse_if false e = ok tt

pool_in : {S : Type 0} → String → List (Pool S) → Option (Pool S)
pool_in name [] = none
pool_in name (p ∷ ps) = if p.name == name then some p else pool_in name ps

unfoldable pub pool_by_name : {S T : Type 0} → Config S T → String → Option (Pool S)
unfolding pool_in
pool_by_name c name = pool_in name c.pools

module _ (L : LabelsApi) where
  open L use {Selector, parse}

  -- The checks of one pool that follow those of its name, and its parsed selector.
  check_pool : Pool Selector → Result ConfigError Selector
  check_pool p = do
    refuse_if (not (is_valid_cpu_type p.cpu_type)) (bad_cpu_type p.name p.cpu_type)
    refuse_if (leb_ℤ p.cpu_cores (pos 0)) (cores_not_positive p.name)
    refuse_if (leb_ℤ p.ram_mb (pos 0)) (ram_not_positive p.name)
    refuse_if (leb_ℤ p.disk_gb (pos 0)) (disk_not_positive p.name)
    refuse_if (p.image == "") (image_required p.name)
    refuse_if (ltb_ℤ p.min_nodes (pos 0)) (min_negative p.name)
    refuse_if (ltb_ℤ p.max_nodes p.min_nodes) (max_below_min p.name p.max_nodes p.min_nodes)
    refuse_if (p.pod_selector == "") (selector_required p.name)
    map_err (bad_selector p.name p.pod_selector) (parse p.pod_selector)

  -- The loop over the pools: its error, if any, and the pools with the selectors stored so far.
  validate_pools :
      ℕ → List String → List (Pool Selector) → Option ConfigError × List (Pool Selector)
  validate_pools i seen [] = (none, [])
  validate_pools i seen (p ∷ ps) =
      let rest = validate_pools (suc i) (p.name ∷ seen) ps in
      if p.name == ""
      then (some (name_required i), p ∷ ps)
      else if any (λ n. n == p.name) seen
      then (some (duplicate_name p.name), p ∷ ps)
      else elim (check_pool p) [
        | err e ↦ (some e, p ∷ ps)
        | ok s ↦ (rest.0, record p { parsed_selector = some s } ∷ rest.1)
      ]

  abbrev has_no_pools : List (Pool Selector) → Bool
  has_no_pools [] = true
  has_no_pools (p ∷ ps) = false

  unfoldable pub validate :
      {T : Type 0} → Config Selector T → Option ConfigError × Config Selector T
  unfolding check_pool validate_pools is_valid_cpu_type
  validate c =
      let (e, pools) = validate_pools 0 [] c.pools in
      if c.datacenter == ""
      then (some datacenter_required, c)
      else if c.cloud_init_template_path == ""
      then (some template_required, c)
      else if has_no_pools c.pools
      then (some pools_required, c)
      else (e, record c { pools = pools })
