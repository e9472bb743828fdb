-- ===== src/Startup.antt =====
-- bootstrap.go, initPhaseKeycloak.go and utils/getCoreUrl.go: the start of a service, as the trace
-- of what it sets up and tears down. How each step outside of the repository ends is part of the
-- parameter `Machine`. That a server drains its requests before `serve` returns is one action
-- here; Startup.Serving has its threads.
pub mod Traces
pub mod Serving
pub mod Drained
pub mod Refinement
use prompt_sdk.Prelude.{
  ℕ, Bool, true, false, not, ◌&&◌, ◌||◌, Option, none, some, List, [], ◌∷◌, ◌++◌, Text, codes,
  text_eq, is_empty, has_prefix, if◌then◌else◌,
}
use prompt_sdk.Audit.{enabled}
use prompt_sdk.DatabaseUrl.{get_env, get_database_url_for_prefix}

pub record ServiceOptions : Type 0 where
  pub service_name : Text
  pub base_path : Text
  pub db_env_prefix : Text
  pub default_db_port : Text
  pub sentry_dsn_env : Text
  pub default_address : Text
  pub capabilities : List (Text × Bool)
  pub has_register_routes : Bool  -- the function is not nil

pub record Machine : Type 0 where
  pub lookup_env : Text → Option Text
  pub migrates : Text → Bool
  pub opens_pool : Text → Bool
  pub inits_keycloak : Text → Text → Text → Bool
  pub registers : Bool
  pub listens : Text → Bool
  pub closes_cleanly : Bool  -- Serve ended by ErrServerClosed

pub data StartError : Type 0 where
  missing : Text → StartError
  migration_failed pool_failed keycloak_failed routes_failed listen_failed serve_failed : StartError

pub data Action : Type 0 where
  sentry_started : Text → Action
  migrated : Text → Action
  pool_opened : Action
  keycloak_ready : Text → Text → Text → Action
  routes_registered : Text → Action
  info_registered : List (Text × Bool) → Action
  listening : Text → Action
  drained pool_closed sentry_flushed : Action

abbrev pub Outcome : Type 0
Outcome = List Action × Option StartError

-- the first field of a list that is empty
unfoldable pub first_missing : List (Text × Text) → Option Text
first_missing [] = none
first_missing ((name, v) ∷ fields) = if is_empty v then some name else first_missing fields

unfoldable pub validate : ServiceOptions → Option StartError
unfolding first_missing
validate o =
    elim (first_missing (
      (codes "ServiceName", o.service_name)
      ∷ (codes "BasePath", o.base_path)
      ∷ (codes "DBEnvPrefix", o.db_env_prefix)
      ∷ (codes "DefaultDBPort", o.default_db_port)
      ∷ (codes "DefaultAddress", o.default_address)
      ∷ [])) [
        | some name ↦ some (missing name)
        | none ↦ if o.has_register_routes then none else some (missing (codes "RegisterRoutes"))
      ]

module _ (m : Machine) where
  unfoldable pub get_core_url : Text
  get_core_url = get_env m.lookup_env (codes "SERVER_CORE_HOST") (codes "http://localhost:8080")

  unfoldable pub keycloak_url : Text
  keycloak_url =
      let base = get_env m.lookup_env (codes "KEYCLOAK_HOST") (codes "http://localhost:8081") in
      if has_prefix base (codes "http") then base else codes "https://" ++ base

  unfoldable pub keycloak_realm : Text
  keycloak_realm = get_env m.lookup_env (codes "KEYCLOAK_REALM_NAME") (codes "prompt")

  -- `maps.Copy`, then the entry for the audit log, which hides one of the service's own
  unfoldable pub reported_capabilities : ServiceOptions → List (Text × Bool)
  reported_capabilities o =
      (codes "audit.log", enabled (m.lookup_env (codes "AUDIT_ENABLED"))) ∷ o.capabilities

  unfoldable pub server_address : ServiceOptions → Text
  server_address o =
      let address = get_env m.lookup_env (codes "SERVER_ADDRESS") o.default_address in
      if is_empty address then o.default_address else address

  unfoldable pub serve : Text → Outcome
  serve address = if not (m.listens address) then ([], some listen_failed) else (
    listening address ∷ drained ∷ [],
    (if m.closes_cleanly then none else some serve_failed),
  )

  unfoldable pub with_pool : ServiceOptions → Outcome
  unfolding serve
  with_pool o =
      if not (m.inits_keycloak keycloak_url keycloak_realm get_core_url)
      then ([], some keycloak_failed)
      else if not m.registers
      then (keycloak_ready keycloak_url keycloak_realm get_core_url ∷ [], some routes_failed)
      else (
        keycloak_ready keycloak_url keycloak_realm get_core_url
            ∷ routes_registered o.base_path
            ∷ info_registered (reported_capabilities o)
            ∷ (serve (server_address o)).0,
        (serve (server_address o)).1,
      )

  -- the deferred close runs whichever way the rest ends
  unfoldable pub with_database : ServiceOptions → Outcome
  with_database o =
      let url = get_database_url_for_prefix m.lookup_env o.db_env_prefix o.default_db_port in
      if not (m.migrates url)
      then ([], some migration_failed)
      else if not (m.opens_pool url)
      then (migrated url ∷ [], some pool_failed)
      else (migrated url ∷ pool_opened ∷ ((with_pool o).0 ++ pool_closed ∷ []), (with_pool o).1)

  unfoldable pub bootstrap : ServiceOptions → Outcome
  bootstrap o = elim (validate o) [
    | some e ↦ ([], some e)
    | none ↦
        if text_eq (get_env m.lookup_env (codes "SENTRY_ENABLED") (codes "false")) (codes "true")
        then (
          sentry_started (get_env m.lookup_env o.sentry_dsn_env [])
              ∷ ((with_database o).0 ++ sentry_flushed ∷ []),
          (with_database o).1,
        )
        else with_database o
  ]
