-- ===== src/Tests/Startup.antt =====
-- The theorems on internal/logging and the loading of the configuration at concrete data.
use kamatera_autoscaler.Base.{
  pos, true, if◌then◌else◌, String, ◌==◌, List, [], ◌∷◌, any, All, none, ok, err, ◌≡◌, ◌≢◌, refl,
  ◌⊎◌, text_discrete, arith,
}
use kamatera_autoscaler.Tests.{labels, config, small, Lab, at_time}
use kamatera_autoscaler.Config.{validate, Config}
use kamatera_autoscaler.Config.Reserved.{
  Node, node, nil, cons, mapping, scalar, document, reject_reserved_fields, walk_forbidden_keys,
  is_reserved_key,
}
use kamatera_autoscaler.Config.Load.{
  Files, load, parse_config, load_template, load_credentials, required_variables,
}
use kamatera_autoscaler.Config.Load.Laws.{Visits, IsLoaded, load-IsLoaded, load_credentials_cases}
use kamatera_autoscaler.Logging.{Attr, replace_attr}
use kamatera_autoscaler.Logging.Laws.{IsSecret, replace_attr_cases}

-- The file of the test configuration: one document with one mapping.
abbrev text : Node
text = node document "" (pos 1) (
    cons
      (node mapping "" (pos 1)
        (cons (node scalar "datacenter" (pos 1) nil) (cons (node scalar "EU" (pos 1) nil) nil)))
      nil)

abbrev unparsed : Config String String
unparsed = record config { pools = record small { parsed_selector = none } ∷ []; cloud_init = none }

abbrev pub files : Files String String Lab
files = record {
  read_file = λ path o. (ok path, o);
  documents = λ raw. text ∷ [];
  decode = λ raw. ok unparsed;
  parse_template = λ raw. ok "#cloud-config";
}

abbrev pub environment : String → String
environment k =
    if k == "KAMATERA_API_CLIENT_ID"
    then "id"
    else if k == "KAMATERA_API_SECRET"
    then "secret"
    else if k == "AUTOSCALER_JOIN_TOKEN"
    then "join"
    else if k == "SSH_PUB_KEY"
    then "key"
    else ""

-- `range` begins at the last variable.
abbrev pub visited : List String
visited =
    "SSH_PUB_KEY" ∷ "KAMATERA_API_SECRET" ∷ "KAMATERA_API_CLIENT_ID" ∷ "AUTOSCALER_JOIN_TOKEN" ∷ []

pub visited-Visits : Visits visited
visited-Visits = record { visits = λ k. grind arith }

load_run :
    load labels files "pools.yaml" (at_time 0 []).outside ≡ (ok config, (at_time 0 []).outside)
unfolding load parse_config reject_reserved_fields walk_forbidden_keys load_template validate
    text_discrete is_reserved_key
load_run = refl

load-IsLoaded_example :
    IsLoaded labels files "pools.yaml" (at_time 0 []).outside (at_time 0 []).outside config
load-IsLoaded_example =
    load-IsLoaded labels files "pools.yaml" (at_time 0 []).outside (at_time 0 []).outside config
      load_run

load_credentials_cases_example :
    ((k : String) × (load_credentials environment visited ≡ err k)
      × (any (λ j. j == k) required_variables ≡ true)
      × (environment k ≡ ""))
    ⊎ (All (λ k. environment k ≢ "") required_variables
        × (load_credentials environment visited
            ≡ ok (record {
              kamatera_client_id = "id";
              kamatera_secret = "secret";
              join_token = "join";
              ssh_pub_key = "key";
            })))
unfolding text_discrete
load_credentials_cases_example = load_credentials_cases environment visited visited-Visits

abbrev attr : Attr
attr = record { key = "apiToken"; value = "abc" }

replace_attr_cases_example :
    ((replace_attr attr ≡ record attr { value = "<redacted>" }) × IsSecret "apiToken")
    ⊎ ((replace_attr attr ≡ attr) × (¬ (IsSecret "apiToken")))
replace_attr_cases_example = replace_attr_cases attr
