-- ===== src/Endpoints/Modules.antt =====
-- Whole routes of promptTypes: RegisterConfigModule and RegisterCopyModule of moduleRegistrars.go, and
-- RegisterPrivacyDataExportEndpoint of privacyExport.go with the middlewares before its handler.
use prompt_sdk.Prelude.{
  [], ◌∷◌, ◌≡◌, ◌≢◌, refl, ap, subst, ◌∙◌, inl, inr, Bool, true, false, Option, none, some, List,
  Text, Result, ok, err, Result-cases, Bool-cases, Unicode, arith, is_empty, if◌then◌else◌,
}
use prompt_sdk.Identity.{Uuid, TokenUser, SubjectIdentifiers}
use prompt_sdk.Gin.{Context, set, abort}
use prompt_sdk.CoreRequests.{CoreService, get_subject_identifiers}
use prompt_sdk.Auth.{identify_subject}
use prompt_sdk.Auth.Granted.{Granted}
use prompt_sdk.Memberships.{set_token_user}
use prompt_sdk.Keycloak.{
  VerifierConfig, TokenVerifier, Panic, keycloak_middleware, authenticate, store_user,
}
use prompt_sdk.Keycloak.Sound.{Verified, keycloak_sound, authenticate-Passes_iff}
use prompt_sdk.Export.{Export, ZipEntry, Upload, new_export}
use prompt_sdk.Endpoints.{Answered, behind, copy, phase_config}
use prompt_sdk.Endpoints.Deletion.{behind-calls}
use prompt_sdk.Endpoints.DataExport.{
  UploadUrl, Exported, refused, Filler, subject_of, data_export, MayReceive, data_export-sent,
}

-- The panic of a route: in a middleware, or in the export.
pub data RoutePanic : Type 0 where
  in_middleware : Panic → RoutePanic
  in_export : prompt_sdk.Export.Panic → RoutePanic

module _ (config : VerifierConfig) (tokens : TokenVerifier) (core : CoreService) where
  -- RegisterCopyModule
  unfoldable pub copy_module :
      List Text
      → (Uuid × Uuid → Bool)
      → Option (Uuid × Uuid)
      → Context
      → Result Panic (Answered (Uuid × Uuid))
  unfolding behind
  copy_module roles handler body c =
      behind (authenticate config tokens core roles c) (copy handler body)

  -- RegisterConfigModule; a call of its handler is noted by whether it succeeds
  unfoldable pub config_module : List Text → Bool → Context → Result Panic (Answered Bool)
  unfolding behind
  config_module roles handled c =
      behind (authenticate config tokens core roles c)
        (λ d. record { context = phase_config handled d; calls = handled ∷ [] })

  module _ (u : Unicode) (parse_url : Text → Option UploadUrl) (hosts : List Text) where
    -- past the Keycloak middleware
    past_token : Filler → Option Text → Bool → Upload → Context → Result RoutePanic Exported
    past_token fill body has_file up d =
        let s = identify_subject core d in
        if s.aborted
        then ok (refused s.status)
        else elim (data_export u parse_url hosts fill body has_file up s) [
          | err p ↦ err (in_export p)
          | ok run ↦ ok run
        ]

    -- RegisterPrivacyDataExportEndpoint: KeycloakMiddleware, SubjectIdentifierMiddleware, handler
    unfoldable pub data_export_route :
        Filler → Option Text → Bool → Upload → Context → Result RoutePanic Exported
    unfolding past_token
    data_export_route fill body has_file up c = elim (keycloak_middleware config tokens c) [
      | err p ↦ err (in_middleware p)
      | ok d ↦ if d.aborted then ok (refused d.status) else past_token fill body has_file up d
    ]

    identified :
        (d : Context) (s : SubjectIdentifiers)
        → (identify_subject core d).aborted ≡ false
        → subject_of (identify_subject core d) ≡ some s
        → get_subject_identifiers core d.authorization ≡ ok s
    unfolding identify_subject subject_of abort set
    identified d s open_ h = elim (Bool-cases (is_empty d.authorization)) [
      | inl e ↦ absurd (ground arith)
      | inr e ↦ elim (Result-cases (get_subject_identifiers core d.authorization)) [
        | inr (fault, f) ↦ absurd (ground arith)
        | inl (found, f) ↦ ground arith
      ]
    ]

    store_user-authorization :
        (v : TokenUser) (c : Context) → (store_user v c).authorization ≡ c.authorization
    unfolding store_user set_token_user set
    store_user-authorization v c = refl

    past_token-sent :
        (fill : Filler) (body : Option Text) (has_file : Bool) (up : Upload) (d : Context)
        (run : Exported) (zs : List ZipEntry)
        → past_token fill body has_file up d ≡ ok run
        → run.sent ≡ some zs
        → ((identify_subject core d).aborted ≡ false)
          × (data_export u parse_url hosts fill body has_file up (identify_subject core d) ≡ ok run)
    unfolding past_token
    past_token-sent fill body has_file up d run zs h sent =
        let s = identify_subject core d in
        elim (Bool-cases s.aborted) [
          | inl stopped ↦ absurd (ground arith)
          | inr on ↦ elim (Result-cases (data_export u parse_url hosts fill body has_file up s)) [
            | inr (p, e) ↦ absurd (ground arith)
            | inl (r, e) ↦ (on, ground arith)
          ]
        ]

    -- On a route for data exports, data leaves the service only for a request with a verified
    -- token of this client, only for the subject whose identifiers core gives for that request's
    -- header, and only by a request to the URL that the body names, which is one that an export
    -- may be sent to; the service's handler was called for that subject and filled the export
    -- without an error, with at least an item.
    pub data_export_route-sent :
        (fill : Filler) (body : Option Text) (has_file : Bool) (up : Upload) (c : Context)
        (run : Exported) (zs : List ZipEntry)
        → data_export_route fill body has_file up c ≡ ok run
        → run.sent ≡ some zs
        → (v : TokenUser) × (subject : SubjectIdentifiers) × (text : Text) × (url : UploadUrl)
          × (e : Export) × Verified config tokens c v
          × (get_subject_identifiers core c.authorization ≡ ok subject)
          × (run.called_for ≡ some subject)
          × (run.sent_to ≡ some text)
          × (body ≡ some text)
          × (parse_url text ≡ some url)
          × MayReceive u parse_url hosts url
          × (fill subject new_export ≡ ok (e, true))
          × (e.error ≡ none)
          × (e.item_count ≢ 0)
    unfolding data_export_route
    data_export_route-sent fill body has_file up c run zs h sent =
        elim (Result-cases (keycloak_middleware config tokens c)) [
          | inr (p, e) ↦ absurd (ground arith)
          | inl (d, e) ↦ elim (Bool-cases d.aborted) [
            | inl stopped ↦ absurd (ground arith)
            | inr on ↦
                let (v, verified, stored) = keycloak_sound config tokens c d e on in
                let (going, ran) =
                  past_token-sent fill body has_file up d run zs (ground arith) sent in
                let (
                  subject, text, url, x, named, called, went_to, is_body, parsed, may, filled,
                  clear, some_item,
                ) =
                  data_export-sent u parse_url hosts fill body has_file up (identify_subject core d)
                    run zs ran sent in
                let header =
                  ap (λ (x : Context). x.authorization) stored ∙ store_user-authorization v c in
                (
                  v,
                  subject,
                  text,
                  url,
                  x,
                  verified,
                  subst (λ a. get_subject_identifiers core a ≡ ok subject) header
                      (identified d subject going named),
                  called,
                  went_to,
                  is_body,
                  parsed,
                  may,
                  filled,
                  clear,
                  some_item,
                )
          ]
        ]

  -- The handler of the configuration module runs only for a caller with a verified token of this
  -- client whom the rules for the module's roles admit.
  pub config_module-calls :
      (roles : List Text) (handled : Bool) (c : Context) (a : Answered Bool)
      → c.aborted ≡ false
      → config_module roles handled c ≡ ok a
      → a.calls ≢ []
      → (u : TokenUser) × Verified config tokens c u × Granted core (store_user u c) roles u
  unfolding config_module
  config_module-calls roles handled c a open_ h ran =
      let (d, passed, served) =
        behind-calls config tokens core c open_ roles
          (λ d. record { context = phase_config handled d; calls = handled ∷ [] }) a h ran in
      (authenticate-Passes_iff config tokens core roles c open_).0 (d, passed)

  -- The same of the copy module.
  pub copy_module-calls :
      (roles : List Text) (handler : Uuid × Uuid → Bool) (body : Option (Uuid × Uuid)) (c : Context)
      (a : Answered (Uuid × Uuid))
      → c.aborted ≡ false
      → copy_module roles handler body c ≡ ok a
      → a.calls ≢ []
      → (u : TokenUser) × Verified config tokens c u × Granted core (store_user u c) roles u
  unfolding copy_module
  copy_module-calls roles handler body c a open_ h ran =
      let (d, passed, served) =
        behind-calls config tokens core c open_ roles (copy handler body) a h ran in
      (authenticate-Passes_iff config tokens core roles c open_).0 (d, passed)
