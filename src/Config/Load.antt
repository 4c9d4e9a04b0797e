-- ===== src/Config/Load.antt =====
-- `Load` and `LoadCredentials` of internal/config/config.go. The file system, gopkg.in/yaml.v3,
-- text/template and the environment are arguments.
pub mod Laws
use kamatera_autoscaler.Base.{
  if◌then◌else◌, String, ◌==◌, List, [], ◌∷◌, none, some, Result, ok, err,
}
use kamatera_autoscaler.Base.Dict.{Dict, lookup, insert}
use kamatera_autoscaler.Config.{LabelsApi, Config, ConfigError, Credentials, validate}
use kamatera_autoscaler.Config.Reserved.{Node, KeyUse, reject_reserved_fields}
use mathlib.Core.Option.{get_or}

-- What `Load` calls. `documents` are those that a decoder gives before the end or a syntax error;
-- `decode` is strict about unknown fields. An error is its text.
pub record Files (Selector Template O : Type 0) : Type 0 where
  pub read_file : String → O → Result String String × O
  pub documents : String → List Node
  pub decode : String → Result String (Config Selector Template)
  pub parse_template : String → Result String Template

pub data LoadError : Type 0 where
  unread_config : String → String → LoadError
  reserved_field : KeyUse → LoadError
  bad_yaml : String → LoadError
  invalid : ConfigError → LoadError
  unread_template : String → String → LoadError
  bad_template : String → LoadError

module _ (L : LabelsApi) {Template O : Type 0} (F : Files L.Selector Template O) where
  -- The checks of the text: a configuration with its selectors.
  unfoldable pub parse_config : String → Result LoadError (Config L.Selector Template)
  parse_config raw = elim (reject_reserved_fields (F.documents raw)) [
    | some u ↦ err (reserved_field u)
    | none ↦ elim (F.decode raw) [
      | err e ↦ err (bad_yaml e)
      | ok c ↦ let (e, d) = validate L c in elim e [ some x ↦ err (invalid x) | none ↦ ok d ]
    ]
  ]

  -- The template of a configuration.
  unfoldable pub load_template :
      Config L.Selector Template → O → Result LoadError (Config L.Selector Template) × O
  load_template c o =
      let (r, o1) = F.read_file c.cloud_init_template_path o in
      (
        elim r [
          | err e ↦ err (unread_template c.cloud_init_template_path e)
          | ok text ↦ elim (F.parse_template text) [
            | err e ↦ err (bad_template e)
            | ok t ↦ ok (record c { cloud_init = some t })
          ]
        ],
        o1,
      )

  unfoldable pub load : String → O → Result LoadError (Config L.Selector Template) × O
  load path o =
      let (r, o1) = F.read_file path o in
      elim r [
        | err e ↦ (err (unread_config path e), o1)
        | ok raw ↦ elim (parse_config raw) [ err e ↦ (err e, o1) | ok c ↦ load_template c o1 ]
      ]

abbrev pub required_variables : List String
required_variables =
    "KAMATERA_API_CLIENT_ID" ∷ "KAMATERA_API_SECRET" ∷ "AUTOSCALER_JOIN_TOKEN" ∷ "SSH_PUB_KEY" ∷ []

module _ (getenv : String → String) where
  -- The loop over the required variables, in the order in which `range` visits them: the name of one
  -- that is empty, or the map with their values.
  unfoldable pub collect_variables : List String → Dict String → Result String (Dict String)
  collect_variables [] m = ok m
  collect_variables (k ∷ ks) m =
      let rest = collect_variables ks (insert k (getenv k) m) in
      if getenv k == "" then err k else rest

  abbrev pub variable : Dict String → String → String
  variable m k = get_or (lookup k m) ""

  unfoldable pub load_credentials : List String → Result String Credentials
  load_credentials order = elim (collect_variables order []) [
    | err k ↦ err k
    | ok m ↦ ok (record {
      kamatera_client_id = variable m "KAMATERA_API_CLIENT_ID";
      kamatera_secret = variable m "KAMATERA_API_SECRET";
      join_token = variable m "AUTOSCALER_JOIN_TOKEN";
      ssh_pub_key = variable m "SSH_PUB_KEY";
    })
  ]
