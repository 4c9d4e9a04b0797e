-- ===== src/Config/Load/Laws.antt =====
-- What `Load` and `LoadCredentials` (internal/config/config.go) accept.
use kamatera_autoscaler.Base.{
  text_discrete, ◌∙◌, sym, subst, true, if◌then◌else◌, String, ◌==◌, ==_self, List, [], ◌∷◌, any,
  All, none, some, ok, err, ◌≡◌, ◌≢◌, ◌⊎◌, inl, inr, refl, arith, Option-cases, Result-cases,
  Bool-cases,
}
use kamatera_autoscaler.Base.Dict.{Dict, lookup, insert, lookup-insert}
use kamatera_autoscaler.Config.{LabelsApi, Config, validate, pool_by_name}
use kamatera_autoscaler.Config.Valid.{IsReady, validate-pool_by_name}
use kamatera_autoscaler.Config.Reserved.{reject_reserved_fields}
use kamatera_autoscaler.Config.Reserved.Laws.{
  keys_of, first_reserved, reject_reserved_fields-first_reserved,
}
use kamatera_autoscaler.Config.Load.{
  Files, parse_config, load_template, load, required_variables, collect_variables, load_credentials,
  variable,
}

-- The order visits the required variables and no others.
pub record Visits (order : List String) : Type 0 where
  pub visits : (k : String) → any (λ j. j == k) order ≡ any (λ j. j == k) required_variables

module _ (getenv : String → String) where
  -- The variable that is empty, or the values of all.
  collect_variables_cases :
      (ks : List String) (m : Dict String)
      → ((k : String) × (collect_variables getenv ks m ≡ err k)
          × (any (λ j. j == k) ks ≡ true)
          × (getenv k ≡ ""))
        ⊎ ((d : Dict String) × (collect_variables getenv ks m ≡ ok d)
            × All (λ k. getenv k ≢ "") ks
            × ((j : String)
                → lookup j d ≡ (if any (λ k. k == j) ks then some (getenv j) else lookup j m)))
  unfolding collect_variables
  collect_variables_cases [] m = inr (m, refl, tt, λ j. refl)
  collect_variables_cases (k ∷ ks) m = elim (Bool-cases (getenv k == "")) [
    | inl empty ↦ inl (k, ground arith, ground (arith, ==_self k), ground arith)
    | inr given ↦ elim (collect_variables_cases ks (insert k (getenv k) m)) [
      | inl (j, e, inside, empty) ↦ inl (j, ground arith, ground arith, empty)
      | inr (d, e, all, found) ↦ inr (
        d,
        ground arith,
        (ground arith, all),
        λ j. ground (arith, found j, lookup-insert k j (getenv k) m),
      )
    ]
  ]

  All-any :
      (order : List String) (k : String)
      → All (λ j. getenv j ≢ "") order
      → any (λ j. j == k) order ≡ true
      → getenv k ≢ ""
  All-any [] k all h = cc
  All-any (j ∷ order) k (one, all) h = ground (arith, All-any order k all)

  -- What the loop leaves for a required variable.
  required_variable :
      (order : List String) (d : Dict String) (k : String)
      → any (λ j. j == k) order ≡ any (λ j. j == k) required_variables
      → All (λ j. getenv j ≢ "") order
      → lookup k d ≡ (if any (λ j. j == k) order then some (getenv k) else none)
      → any (λ j. j == k) required_variables ≡ true
      → (getenv k ≢ "") × (variable getenv d k ≡ getenv k)
  required_variable order d k visits all found required =
      (All-any order k all (visits ∙ required), rw (found, visits, required) refl)

  -- In whatever order the required variables are visited, the credentials are their values, all of them
  -- given, or the error names one that is required and empty.
  pub load_credentials_cases :
      (order : List String)
      → Visits order
      → ((k : String) × (load_credentials getenv order ≡ err k)
          × (any (λ j. j == k) required_variables ≡ true)
          × (getenv k ≡ ""))
        ⊎ (All (λ k. getenv k ≢ "") required_variables
            × (load_credentials getenv order
                ≡ ok (record {
                  kamatera_client_id = getenv "KAMATERA_API_CLIENT_ID";
                  kamatera_secret = getenv "KAMATERA_API_SECRET";
                  join_token = getenv "AUTOSCALER_JOIN_TOKEN";
                  ssh_pub_key = getenv "SSH_PUB_KEY";
                })))
  unfolding load_credentials text_discrete lookup
  load_credentials_cases order v = elim (collect_variables_cases order []) [
    | inl (k, e, inside, empty) ↦ inl (k, ground arith, ground (arith, v.visits k), empty)
    | inr (d, e, all, found) ↦
        let given = λ (k : String) (r : any (λ j. j == k) required_variables ≡ true).
          required_variable order d k (v.visits k) all (found k) r in
        let (id, same_id) = given "KAMATERA_API_CLIENT_ID" refl in
        let (secret, same_secret) = given "KAMATERA_API_SECRET" refl in
        let (token, same_token) = given "AUTOSCALER_JOIN_TOKEN" refl in
        let (key, same_key) = given "SSH_PUB_KEY" refl in
        inr ((id, (secret, (token, (key, tt)))), cc (e, same_id, same_secret, same_token, same_key))
  ]

module _ (L : LabelsApi) {Template O : Type 0} (F : Files L.Selector Template O) where
  load_template_ok :
      (d c : Config L.Selector Template) (o o' : O)
      → load_template L F d o ≡ (ok c, o')
      → (text : String) × (t : Template) × (F.read_file d.cloud_init_template_path o
          ≡ (ok text, o'))
        × (F.parse_template text ≡ ok t)
        × (c ≡ record d { cloud_init = some t })
  unfolding load_template
  load_template_ok d c o o' h = elim (Result-cases (F.read_file d.cloud_init_template_path o).0) [
    | inr (e, q) ↦ ground arith
    | inl (text, q) ↦ elim (Result-cases (F.parse_template text)) [
      | inr (e, p) ↦ ground arith
      | inl (t, p) ↦ (text, t, ground arith, p, ground arith)
    ]
  ]

  -- The text of the file names no reserved key, all pools are ready and found under their names, and the
  -- template is the parsed text of the file that the configuration names.
  pub record IsLoaded (path : String) (o o' : O) (c : Config L.Selector Template) : Type 0 where
    pub raw : String
    pub between : O
    pub read : F.read_file path o ≡ (ok raw, between)
    pub clean : first_reserved (keys_of (F.documents raw)) ≡ none
    pub ready : All (λ q. IsReady L q × (pool_by_name c q.name ≡ some q)) c.pools
    pub text : String
    pub template : Template
    pub template_read : F.read_file c.cloud_init_template_path between ≡ (ok text, o')
    pub parsed : F.parse_template text ≡ ok template
    pub kept : c.cloud_init ≡ some template

  parse_config_ok :
      (raw : String) (c : Config L.Selector Template)
      → parse_config L F raw ≡ ok c
      → (first_reserved (keys_of (F.documents raw)) ≡ none)
        × All (λ q. IsReady L q × (pool_by_name c q.name ≡ some q)) c.pools
  unfolding parse_config
  parse_config_ok raw c h = elim (Option-cases (reject_reserved_fields (F.documents raw))) [
    | inr (u, e) ↦ ground arith
    | inl clean ↦ elim (Result-cases (F.decode raw)) [
      | inr (x, e) ↦ ground arith
      | inl (d, e) ↦ elim (Option-cases (validate L d).0) [
        | inr (x, bad) ↦ ground arith
        | inl good ↦
            let same : (validate L d).1 ≡ c = ground arith in
            (
              sym (reject_reserved_fields-first_reserved (F.documents raw)) ∙ clean,
              subst (λ k. All (λ q. IsReady L q × (pool_by_name k q.name ≡ some q)) k.pools) same
                  (validate-pool_by_name L d good),
            )
      ]
    ]
  ]

  with_template :
      (c : Config L.Selector Template) (t : Template)
      (ready : All (λ q. IsReady L q × (pool_by_name c q.name ≡ some q)) c.pools)
      → let d = record c { cloud_init = some t } in
        All (λ q. IsReady L q × (pool_by_name d q.name ≡ some q)) d.pools
  unfolding pool_by_name
  with_template c t ready = ready

  -- A configuration that `Load` gives is loaded in this sense.
  pub load-IsLoaded :
      (path : String) (o o' : O) (c : Config L.Selector Template)
      → load L F path o ≡ (ok c, o')
      → IsLoaded path o o' c
  unfolding load
  load-IsLoaded path o o' c h = elim (Result-cases (F.read_file path o).0) [
    | inr (e, q) ↦ ground arith
    | inl (raw, q) ↦ elim (Result-cases (parse_config L F raw)) [
      | inr (e, p) ↦ ground arith
      | inl (d, p) ↦
          let o1 = (F.read_file path o).1 in
          let run : load_template L F d o1 ≡ (ok c, o') = ground arith in
          let (clean, ready) = parse_config_ok raw d p in
          let (text, t, text_read, parsed, same) = load_template_ok d c o1 o' run in
          record {
            raw = raw;
            between = o1;
            read = ground arith;
            clean = clean;
            ready = rw same (with_template d t ready);
            text = text;
            template = t;
            template_read = rw same text_read;
            parsed = parsed;
            kept = rw same refl;
          }
    ]
  ]
