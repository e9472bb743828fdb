-- ===== src/Endpoints.antt =====
-- promptTypes: the endpoints that the library registers for its services. What a service's own
-- handler does with its store is a parameter; that it was called, and for whom, is part of the
-- result. The JSON decoder is a parameter as well, as the value that it gives.
pub mod Hosts
pub mod DataExport
pub mod Deletion
pub mod Modules
use prompt_sdk.Prelude.{
  ℕ, Bool, true, false, not, ◌&&◌, ◌||◌, Option, none, some, List, [], ◌∷◌, Text, codes, text_eq,
  ◌==◌, Result, ok, err, if◌then◌else◌, Unicode,
}
use prompt_sdk.Identity.{Uuid, SubjectIdentifiers, prompt_admin, course_lecturer}
use prompt_sdk.Gin.{Key, Value, Context, param, respond}
use prompt_sdk.CoreRequests.{CoreService}
use prompt_sdk.Keycloak.{VerifierConfig, TokenVerifier, Panic, authenticate}
use Hosts.{is_allowed_host}

-- What an endpoint did: its answer, and the calls of the service's handler.
pub record Answered {ℓ} (A : Type ℓ) : Type ℓ where
  pub context : Context
  pub calls : List A

-- A handler of a route behind its middleware: it runs unless the context is aborted.
unfoldable pub behind {ℓ} :
    {A : Type ℓ} → Result Panic Context → (Context → Answered A) → Result Panic (Answered A)
behind (err p) handler = err p
behind (ok c) handler =
    if c.aborted then ok (record { context = c; calls = [] }) else ok (handler c)

-- The part that the endpoints share: a request that is not understood is answered with 400, a
-- handler that fails with 500, and one that succeeds with 200.
unfoldable pub serve {ℓ} : {A : Type ℓ} → (A → Bool) → Option A → Context → Answered A
serve handler none c = record { context = respond c 400; calls = [] }
serve handler (some request) c = record {
  context = respond c (if handler request then 200 else 500);
  calls = request ∷ [];
}

module _ (config : VerifierConfig) (tokens : TokenVerifier) (core : CoreService) where
  -- RegisterPrivacyDataDeletionEndpoint, with the subject that the body names
  unfoldable pub data_deletion :
      (SubjectIdentifiers → Bool)
      → Option SubjectIdentifiers
      → Context
      → Result Panic (Answered SubjectIdentifiers)
  unfolding serve behind
  data_deletion handler body c =
      behind (authenticate config tokens core (prompt_admin ∷ []) c) (serve handler body)

  -- RegisterCoursePhaseDeletionEndpoint
  unfoldable pub course_phase_deletion : (Uuid → Bool) → Context → Result Panic (Answered Uuid)
  unfolding serve behind
  course_phase_deletion handler c =
      behind (authenticate config tokens core (prompt_admin ∷ course_lecturer ∷ []) c)
        (λ d. serve handler (core.parse_uuid (param d (codes "coursePhaseID"))) d)

-- RegisterCopyEndpoint, behind the caller's middleware: source and target phase
unfoldable pub copy : (Uuid × Uuid → Bool) → Option (Uuid × Uuid) → Context → Answered (Uuid × Uuid)
unfolding serve
copy handler body c = serve handler body c

-- RegisterConfigEndpoint: no request is read
unfoldable pub phase_config : Bool → Context → Context
phase_config handled c = if handled then respond c 200 else respond c 500

-- RegisterInfoEndpoint; `none` for a nil health check
pub record ServiceInfo : Type 0 where
  pub service_name : Text
  pub version : Text
  pub healthy : Bool
  pub capabilities : List (Text × Bool)

unfoldable pub service_info : ServiceInfo → Option Bool → ServiceInfo
service_info info none = record info { healthy = true }
service_info info (some check) = record info { healthy = check }
