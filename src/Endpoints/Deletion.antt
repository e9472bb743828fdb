-- ===== src/Endpoints/Deletion.antt =====
-- promptTypes/privacyDeletion.go and coursePhaseDeletion.go: who can have data deleted.
use prompt_sdk.Prelude.{
  ◌≡◌, ◌≢◌, refl, ap, sym, ◌∙◌, inl, inr, Bool, true, false, Option, none, some, List, [], ◌∷◌,
  Text, codes, contains, text_eq, ok, Result-cases, Bool-cases, arith,
}
use prompt_sdk.Identity.{
  Uuid, TokenUser, SubjectIdentifiers, has_role, prompt_admin, prompt_lecturer, course_lecturer,
}
use prompt_sdk.Gin.{Context, abort, param}
use prompt_sdk.CoreRequests.{CoreService}
use prompt_sdk.Auth.Granted.{Granted}
use prompt_sdk.Auth.Decision.{authorize-Granted_iff}
use prompt_sdk.Auth.Platform.{authorize_platform_only}
use prompt_sdk.Keycloak.{VerifierConfig, TokenVerifier, authenticate, store_user}
use prompt_sdk.Keycloak.Sound.{
  Verified, Passes, authenticate-Passes_iff, store_user-get, store_user-aborted,
}
use prompt_sdk.Endpoints.{Answered, behind, serve, data_deletion, course_phase_deletion}

serve-calls {ℓ} :
    {A : Type ℓ} (handler : A → Bool) (request : Option A) (d : Context) (a : Answered A)
    → serve handler request d ≡ a
    → a.calls ≢ []
    → (r : A) × (request ≡ some r) × (a.calls ≡ r ∷ [])
unfolding serve
serve-calls handler none d a h ran = absurd (ran (ap (λ t. t.calls) (sym h)))
serve-calls handler (some r) d a h ran = (r, refl, ap (λ t. t.calls) (sym h))

module _ (config : VerifierConfig) (tokens : TokenVerifier) (core : CoreService) (c : Context)
    (open_ : c.aborted ≡ false) where
  -- Where the handler of a route ran, the middleware before it passed the request on.
  pub behind-calls {ℓ} :
      {A : Type ℓ} (allowed : List Text) (handler : Context → Answered A) (a : Answered A)
      → behind (authenticate config tokens core allowed c) handler ≡ ok a
      → a.calls ≢ []
      → (d : Context) × Passes config tokens core allowed c d × (handler d ≡ a)
  unfolding behind
  behind-calls allowed handler a h ran =
      elim (Result-cases (authenticate config tokens core allowed c)) [
        | inr (p, e) ↦ absurd (ground arith)
        | inl (d, e) ↦ elim (Bool-cases d.aborted) [
          | inl stopped ↦ absurd (ground arith)
          | inr on ↦ (d, (e, on), ground arith)
        ]
      ]

  admin-of_Granted :
      (u : TokenUser)
      → Granted core (store_user u c) (prompt_admin ∷ []) u
      → has_role u.roles prompt_admin ≡ true
  unfolding contains text_eq prompt_admin prompt_lecturer abort
  admin-of_Granted u g =
      let known = store_user-get config tokens u c in
      let on =
        (authorize-Granted_iff core (prompt_admin ∷ []) (store_user u c) u
            (store_user-aborted config tokens u c ∙ open_) known).1
          g in
      let decided =
        authorize_platform_only core (prompt_admin ∷ []) (store_user u c) u known (inl refl, tt) in
      elim (Bool-cases (has_role u.roles prompt_admin)) [
        | inl held ↦ held
        | inr lacking ↦ absurd (ground arith)
      ]

  -- The handler of a privacy deletion runs only for a caller with a verified token of this client
  -- whose claims give `PROMPT_Admin`, and then exactly once, for the subject that the body names.
  pub data_deletion-calls :
      (handler : SubjectIdentifiers → Bool) (body : Option SubjectIdentifiers)
      (a : Answered SubjectIdentifiers)
      → data_deletion config tokens core handler body c ≡ ok a
      → a.calls ≢ []
      → (u : TokenUser) × (s : SubjectIdentifiers) × Verified config tokens c u
        × (has_role u.roles prompt_admin ≡ true)
        × (body ≡ some s)
        × (a.calls ≡ s ∷ [])
  unfolding data_deletion
  data_deletion-calls handler body a h ran =
      let (d, passed, served) = behind-calls (prompt_admin ∷ []) (serve handler body) a h ran in
      let (u, v, g) =
        (authenticate-Passes_iff config tokens core (prompt_admin ∷ []) c open_).0 (d, passed) in
      let (s, named, once) = serve-calls handler body d a served ran in
      (u, s, v, admin-of_Granted u g, named, once)

  -- The handler of a course phase deletion runs only for a caller with a verified token whom the
  -- rules for `PROMPT_Admin` and the lecturers of the course admit, and then exactly once.
  pub course_phase_deletion-calls :
      (handler : Uuid → Bool) (a : Answered Uuid)
      → course_phase_deletion config tokens core handler c ≡ ok a
      → a.calls ≢ []
      → (u : TokenUser) × (id : Uuid) × Verified config tokens c u
        × Granted core (store_user u c) (prompt_admin ∷ course_lecturer ∷ []) u
        × (a.calls ≡ id ∷ [])
  unfolding course_phase_deletion
  course_phase_deletion-calls handler a h ran =
      let allowed = prompt_admin ∷ course_lecturer ∷ [] in
      let (d, passed, served) =
        behind-calls allowed
          (λ d. serve handler (core.parse_uuid (param d (codes "coursePhaseID"))) d) a h ran in
      let (u, v, g) = (authenticate-Passes_iff config tokens core allowed c open_).0 (d, passed) in
      let (id, named, once) =
        serve-calls handler (core.parse_uuid (param d (codes "coursePhaseID"))) d a served ran in
      (u, id, v, g, once)
