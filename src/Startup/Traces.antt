-- ===== src/Startup/Traces.antt =====
-- What a service has done by the time that it serves, and what it leaves behind.
use prompt_sdk.Prelude.{
  ℕ, ◌+◌, ◌≡◌, ◌≢◌, ◌↔◌, refl, sym, ◌∙◌, inl, inr, true, Option, none, some, List, [], ◌∷◌, ◌++◌,
  Text, codes, is_empty, Bool-cases, arith,
}
use prompt_sdk.Startup.{
  ServiceOptions, Machine, Action, sentry_started, migrated, pool_opened, keycloak_ready,
  routes_registered, info_registered, listening, drained, pool_closed, sentry_flushed, validate,
  get_core_url, keycloak_url, keycloak_realm, server_address, with_pool, with_database, bootstrap,
}
use prompt_sdk.DatabaseUrl.{get_env, get_database_url_for_prefix}

-- The address of the first server that a trace runs.
abbrev pub served : List Action → Option Text
served [] = none
served (listening address ∷ trace) = some address
served (_ ∷ trace) = served trace

served-append_end :
    (s : List Action) (a : Action) → served (a ∷ []) ≡ none → served (s ++ a ∷ []) ≡ served s
served-append_end [] a h = h
served-append_end (listening address ∷ s) a h = refl
served-append_end (sentry_started dsn ∷ s) a h = served-append_end s a h
served-append_end (migrated url ∷ s) a h = served-append_end s a h
served-append_end (pool_opened ∷ s) a h = served-append_end s a h
served-append_end (keycloak_ready base realm core ∷ s) a h = served-append_end s a h
served-append_end (routes_registered path ∷ s) a h = served-append_end s a h
served-append_end (info_registered capabilities ∷ s) a h = served-append_end s a h
served-append_end (drained ∷ s) a h = served-append_end s a h
served-append_end (pool_closed ∷ s) a h = served-append_end s a h
served-append_end (sentry_flushed ∷ s) a h = served-append_end s a h

-- All that has to be given.
abbrev pub IsComplete : ServiceOptions → Type 0
IsComplete o =
    (o.service_name ≢ [])
    × (o.base_path ≢ [])
    × (o.db_env_prefix ≢ [])
    × (o.default_db_port ≢ [])
    × (o.default_address ≢ [])
    × (o.has_register_routes ≡ true)

validate_iff : (o : ServiceOptions) → (validate o ≡ none) ↔ IsComplete o
unfolding validate
validate_iff o = ground arith

abbrev pub ends : Action → ℕ
ends pool_closed = 1
ends sentry_flushed = 1
ends _ = 0

abbrev pub begins : Action → ℕ
begins pool_opened = 1
begins (sentry_started dsn) = 1
begins _ = 0

abbrev pub total : (Action → ℕ) → List Action → ℕ
total f [] = 0
total f (a ∷ trace) = f a + total f trace

total-append : (f : Action → ℕ) (s t : List Action) → total f (s ++ t) ≡ total f s + total f t
total-append f [] t = omega arith
total-append f (a ∷ s) t = omega (arith, total-append f s t)

module _ (m : Machine) (o : ServiceOptions) where
  with_pool-total : total begins (with_pool m o).0 ≡ total ends (with_pool m o).0
  unfolding with_pool
  with_pool-total = ground arith

  with_database-total : total begins (with_database m o).0 ≡ total ends (with_database m o).0
  unfolding with_database
  with_database-total = ground (
    arith,
    with_pool-total,
    total-append begins (with_pool m o).0 (pool_closed ∷ []),
    total-append ends (with_pool m o).0 (pool_closed ∷ []),
  )

  -- However the start of a service ends, as many pools and Sentry clients are closed and flushed
  -- as were opened and started.
  pub bootstrap-total : total begins (bootstrap m o).0 ≡ total ends (bootstrap m o).0
  unfolding bootstrap
  bootstrap-total = ground (
    arith,
    with_database-total,
    total-append begins (with_database m o).0 (sentry_flushed ∷ []),
    total-append ends (with_database m o).0 (sentry_flushed ∷ []),
  )

  -- The steps that come before a server runs all succeeded.
  pub record IsReady (address : Text) : Type 0 where
    pub complete : IsComplete o
    pub schema :
        m.migrates (get_database_url_for_prefix m.lookup_env o.db_env_prefix o.default_db_port)
        ≡ true
    pub pool :
        m.opens_pool (get_database_url_for_prefix m.lookup_env o.db_env_prefix o.default_db_port)
        ≡ true
    pub keycloak : m.inits_keycloak (keycloak_url m) (keycloak_realm m) (get_core_url m) ≡ true
    pub routes : m.registers ≡ true
    pub free : m.listens address ≡ true
    pub chosen : address ≡ server_address m o

  served_pool :
      (address : Text)
      → (served (with_pool m o).0 ≡ some address) ↔ (
          (m.inits_keycloak (keycloak_url m) (keycloak_realm m) (get_core_url m) ≡ true)
          × (m.registers ≡ true)
          × (m.listens address ≡ true)
          × (address ≡ server_address m o))
  unfolding with_pool
  served_pool address = (
    λ h. elim (Bool-cases (m.listens (server_address m o))) [
      | inl free ↦
          let same : address ≡ server_address m o = ground arith in
          (ground arith, ground arith, rw same free, same)
      | inr busy ↦ absurd (ground arith)
    ],
    λ h.
        let free : m.listens (server_address m o) ≡ true = rw (← h.3) h.2 in
        ground (arith, h.0, h.1, h.3),
  )

  served_database :
      (address : Text)
      → (served (with_database m o).0 ≡ some address) ↔ (
          (m.migrates (get_database_url_for_prefix m.lookup_env o.db_env_prefix o.default_db_port)
            ≡ true)
          × (m.opens_pool
                (get_database_url_for_prefix m.lookup_env o.db_env_prefix o.default_db_port)
              ≡ true)
          × (served (with_pool m o).0 ≡ some address))
  unfolding with_database
  served_database address = ground (arith, served-append_end (with_pool m o).0 pool_closed refl)

  served-bootstrap :
      (address : Text)
      → (served (bootstrap m o).0 ≡ some address)
        ↔ ((validate o ≡ none) × (served (with_database m o).0 ≡ some address))
  unfolding bootstrap
  served-bootstrap address =
      ground (arith, served-append_end (with_database m o).0 sentry_flushed refl)

  server_address-not_empty : o.default_address ≢ [] → server_address m o ≢ []
  unfolding server_address
  server_address-not_empty h e =
      let address = get_env m.lookup_env (codes "SERVER_ADDRESS") o.default_address in
      elim (Bool-cases (is_empty address)) [
        | inl blank ↦ h (ground arith)
        | inr given ↦ ground arith
      ]

  -- A service serves at an address exactly if its options are complete, the migrations ran, the
  -- pool opened, Keycloak was set up, its routes were registered, and it can listen there; the
  -- address is SERVER_ADDRESS, or the default where that is not set or empty, and never empty.
  pub bootstrap-IsReady_iff :
      (address : Text)
      → ((served (bootstrap m o).0 ≡ some address) ↔ IsReady address)
        × (IsReady address → address ≢ [])
  bootstrap-IsReady_iff address =
      let pool = served_pool address in
      let database = served_database address in
      let whole = served-bootstrap address in
      (
        (
          λ h.
              let (valid, below) = whole.0 h in
              let (schema, opened, inner) = database.0 below in
              let (keycloak, routes, free, chosen) = pool.0 inner in
              record {
                complete = (validate_iff o).0 valid;
                schema = schema;
                pool = opened;
                keycloak = keycloak;
                routes = routes;
                free = free;
                chosen = chosen;
              },
          λ r. whole.1 (
            (validate_iff o).1 r.complete,
            database.1 (r.schema, r.pool, pool.1 (r.keycloak, r.routes, r.free, r.chosen)),
          ),
        ),
        λ r e. server_address-not_empty r.complete.4 (sym r.chosen ∙ e),
      )
