-- ===== src/Config/Valid.antt =====
-- What `Validate` (internal/config/config.go) accepts, described without its code.
use kamatera_autoscaler.Base.{
  ℕ, suc, pos, ◌≤ℤ◌, ◌<ℤ◌, false, String, ◌==◌, List, [], ◌∷◌, any, All, none, some, ok, ◌≡◌, refl,
  ◌≢◌, ◌↔◌, ◌⊎◌, inl, inr, arith, subst, Bool-cases, Result-cases, ==_self, All-imp,
}
use kamatera_autoscaler.Config.{
  LabelsApi, Pool, Config, is_valid_cpu_type, check_pool, validate_pools, validate, pool_in,
  pool_by_name,
}

module _ (L : LabelsApi) where
  open L use {Selector, parse}

  -- The sizes, counts and texts that a pool must have, with the selector that its text stands for.
  pub record PoolIsValid (p : Pool Selector) (s : Selector) : Type 0 where
    pub cpu_type : (p.cpu_type ≡ "A") ⊎ (p.cpu_type ≡ "B") ⊎ (p.cpu_type ≡ "D") ⊎ (p.cpu_type ≡ "T")
    pub cores : pos 0 <ℤ p.cpu_cores
    pub ram : pos 0 <ℤ p.ram_mb
    pub disk : pos 0 <ℤ p.disk_gb
    pub image : p.image ≢ ""
    pub lower : pos 0 ≤ℤ p.min_nodes
    pub upper : p.min_nodes ≤ℤ p.max_nodes
    pub selector : p.pod_selector ≢ ""
    pub parsed : parse p.pod_selector ≡ ok s

  check_pool-PoolIsValid :
      (p : Pool Selector) (s : Selector) → check_pool L p ≡ ok s → PoolIsValid p s
  unfolding check_pool is_valid_cpu_type
  check_pool-PoolIsValid p s h = ground arith

  PoolIsValid-check_pool :
      (p : Pool Selector) (s : Selector) → PoolIsValid p s → check_pool L p ≡ ok s
  unfolding check_pool is_valid_cpu_type
  PoolIsValid-check_pool p s v = ground arith

  -- Every pool is named, differently from those before it, and valid.
  abbrev pub PoolsAreValid : List String → List (Pool Selector) → Type 0
  PoolsAreValid seen [] = Unit
  PoolsAreValid seen (p ∷ ps) =
      (p.name ≢ "")
      × (any (λ n. n == p.name) seen ≡ false)
      × ((s : Selector) × PoolIsValid p s)
      × PoolsAreValid (p.name ∷ seen) ps

  validate_pools_sound :
      (i : ℕ) (seen : List String) (ps : List (Pool Selector))
      → (validate_pools L i seen ps).0 ≡ none
      → PoolsAreValid seen ps
  unfolding validate_pools
  validate_pools_sound i seen [] h = tt
  validate_pools_sound i seen (p ∷ ps) h = elim (Result-cases (check_pool L p)) [
    | inl (s, e) ↦ (
      ground arith,
      ground arith,
      (s, check_pool-PoolIsValid p s e),
      validate_pools_sound (suc i) (p.name ∷ seen) ps (ground arith),
    )
    | inr (e, q) ↦ ground arith
  ]

  validate_pools_complete :
      (i : ℕ) (seen : List String) (ps : List (Pool Selector))
      → PoolsAreValid seen ps
      → (validate_pools L i seen ps).0 ≡ none
  unfolding validate_pools
  validate_pools_complete i seen [] h = refl
  validate_pools_complete i seen (p ∷ ps) (named, fresh, (s, v), rest) =
      ground (
        arith,
        PoolIsValid-check_pool p s v,
        validate_pools_complete (suc i) (p.name ∷ seen) ps rest,
      )

  pub record ConfigIsValid {T : Type 0} (c : Config Selector T) : Type 0 where
    pub datacenter : c.datacenter ≢ ""
    pub template : c.cloud_init_template_path ≢ ""
    pub some_pool : c.pools ≢ []
    pub pools : PoolsAreValid [] c.pools

  -- `Validate` accepts a configuration exactly when it names a datacenter and a template, has a
  -- pool, and all its pools are valid under different names.
  pub validate-ConfigIsValid :
      {T : Type 0} (c : Config Selector T) → ((validate L c).0 ≡ none) ↔ ConfigIsValid c
  unfolding validate
  validate-ConfigIsValid c = (
    λ h. record {
      datacenter = ground arith;
      template = ground arith;
      some_pool = ground arith;
      pools = validate_pools_sound 0 [] c.pools (ground arith);
    },
    λ v. ground (arith, validate_pools_complete 0 [] c.pools v.pools),
  )

  -- A pool as the controller finds it: valid, with its selector parsed.
  abbrev pub IsReady : Pool Selector → Type 0
  IsReady q = (s : Selector) × (q.parsed_selector ≡ some s) × PoolIsValid q s

  validate_pools-cons :
      (i : ℕ) (seen : List String) (p : Pool Selector) (ps : List (Pool Selector)) {s : Selector}
      → check_pool L p ≡ ok s
      → (validate_pools L i seen (p ∷ ps)).0 ≡ none
      → let rest = validate_pools L (suc i) (p.name ∷ seen) ps in
        (validate_pools L i seen (p ∷ ps) ≡ (none, record p { parsed_selector = some s } ∷ rest.1))
        × (rest.0 ≡ none)
        × (any (λ n. n == p.name) seen ≡ false)
  unfolding validate_pools
  validate_pools-cons i seen p ps c h = ground arith

  abbrev Found : List String → List (Pool Selector) → Pool Selector → Type 0
  Found seen qs q = IsReady q × (any (λ n. n == q.name) seen ≡ false) × (pool_in q.name qs ≡ some q)

  Found-cons :
      (seen : List String) (p : Pool Selector) (qs : List (Pool Selector)) (q : Pool Selector)
      → Found (p.name ∷ seen) qs q
      → Found seen (p ∷ qs) q
  unfolding pool_in
  Found-cons seen p qs q (r, fresh, found) = (r, ground arith, ground arith)

  validate_pools-Found :
      (i : ℕ) (seen : List String) (ps : List (Pool Selector))
      → (validate_pools L i seen ps).0 ≡ none
      → let qs = (validate_pools L i seen ps).1 in All (Found seen qs) qs
  unfolding validate_pools pool_in
  validate_pools-Found i seen [] h = tt
  validate_pools-Found i seen (p ∷ ps) h = elim (Result-cases (check_pool L p)) [
    | inl (s, c) ↦
        let (e, more, fresh) = validate_pools-cons i seen p ps c h in
        let v = check_pool-PoolIsValid p s c in
        rw (e, validate_pools)
          (
            (
              (
                s,
                refl,
                record {
                  cpu_type = v.cpu_type;
                  cores = v.cores;
                  ram = v.ram;
                  disk = v.disk;
                  image = v.image;
                  lower = v.lower;
                  upper = v.upper;
                  selector = v.selector;
                  parsed = v.parsed;
                },
              ),
              fresh,
              rw ==_self,
            ),
            All-imp _ (λ q g. Found-cons seen (record p { parsed_selector = some s }) _ q g)
                (validate_pools-Found (suc i) (p.name ∷ seen) ps more),
          )
    | inr (e, q) ↦ ground arith
  ]

  validate-eq :
      {T : Type 0} (c : Config Selector T)
      → (validate L c).0 ≡ none
      → let found = validate_pools L 0 [] c.pools in
        (validate L c ≡ (none, record c { pools = found.1 })) × (found.0 ≡ none)
  unfolding validate
  validate-eq c h = ground arith

  -- In an accepted configuration every pool is valid with its selector parsed, and `PoolByName`
  -- finds it under its own name.
  pub validate-pool_by_name :
      {T : Type 0} (c : Config Selector T)
      → (validate L c).0 ≡ none
      → let d = (validate L c).1 in All (λ q. IsReady q × (pool_by_name d q.name ≡ some q)) d.pools
  unfolding pool_by_name
  validate-pool_by_name c h =
      let (e, more) = validate-eq c h in
      rw e (All-imp _ (λ q g. (g.0, g.2)) (validate_pools-Found 0 [] c.pools more))

-- A pool found under a name has it.
pool_in-name :
    {S : Type 0} (name : String) (ps : List (Pool S)) (p : Pool S)
    → pool_in name ps ≡ some p
    → p.name ≡ name
unfolding pool_in
pool_in-name name [] p h = cc
pool_in-name name (q ∷ ps) p h = ground (arith, pool_in-name name ps p)

pub pool_by_name-name :
    {S T : Type 0} (c : Config S T) (name : String) (p : Pool S)
    → pool_by_name c name ≡ some p
    → p.name ≡ name
unfolding pool_by_name
pool_by_name-name c name p h = pool_in-name name c.pools p h

-- What holds of all pools holds of one that is found.
pool_in-All :
    {S : Type 0} (name : String) (ps : List (Pool S)) (p : Pool S) (P : Pool S → Type 0)
    → All P ps
    → pool_in name ps ≡ some p
    → P p
unfolding pool_in
pool_in-All name [] p P all h = cc
pool_in-All name (q ∷ ps) p P (one, all) h = elim (Bool-cases (q.name == name)) [
  | inl e ↦ subst P (ground arith) one
  | inr e ↦ pool_in-All name ps p P all (ground arith)
]

pub pool_by_name-All :
    {S T : Type 0} (c : Config S T) (name : String) (p : Pool S) (P : Pool S → Type 0)
    → All P c.pools
    → pool_by_name c name ≡ some p
    → P p
unfolding pool_by_name
pool_by_name-All c name p P all h = pool_in-All name c.pools p P all h
