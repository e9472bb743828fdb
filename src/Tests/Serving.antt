-- ===== src/Tests/Serving.antt =====
-- The theorems on the endpoints at concrete requests.
use prompt_sdk.Prelude.{
  ◌≡◌, ◌≢◌, refl, true, false, Option, none, some, List, [], ◌∷◌, Text, codes, ok, arith, to_lower,
  text_eq, text_eq_refl, has_prefix, has_suffix, trim_prefix, contains,
}
use prompt_sdk.Identity.{
  Uuid, TokenUser, Roles, SubjectIdentifiers, has_role, add_role, prompt_admin, course_lecturer,
}
use prompt_sdk.Gin.{set, Context, respond, param}
use prompt_sdk.Json.{Json, Object, Items, end, field, find}
use prompt_sdk.Auth.{authorize, build_allowed_roles_set, check_direct_role}
use prompt_sdk.Memberships.{get_token_user}
use prompt_sdk.Auth.RoleSets.{contains-build_allowed_roles_set}
use prompt_sdk.Auth.Granted.{Granted}
use prompt_sdk.Keycloak.{
  TokenVerifier, store_user, user_of_claims, authenticate, keycloak_middleware,
  extract_bearer_token, accept_claims, check_authorized_party, check_keycloak_roles, check_audience,
  extract_resource_access, client_roles,
}
use prompt_sdk.Keycloak.Sound.{Verified}
use prompt_sdk.Export.{
  Export, ZipEntry, new_export, Upload, upload_to, close, has_error, is_empty_export,
}
use prompt_sdk.Endpoints.{Answered, data_deletion, course_phase_deletion}
use prompt_sdk.Endpoints.Hosts.{is_allowed_host, any_host, host_matches}
use prompt_sdk.Endpoints.DataExport.{
  UploadUrl, Exported, refusal, host_refusal, finish, subject_of, data_export, MayReceive, Filler,
}
use prompt_sdk.CoreRequests.{CoreService, send_request, get_subject_identifiers}
use prompt_sdk.Auth.{identify_subject}
use prompt_sdk.Memberships.{set_token_user}
use prompt_sdk.Endpoints.Modules.{data_export_route, data_export_route-sent}
use prompt_sdk.Endpoints.Deletion.{data_deletion-calls, course_phase_deletion-calls}
use prompt_sdk.Tests.World.{core, config, request, unicode}

abbrev admin_claims : Object
admin_claims = field (codes "azp") (Json.str (codes "prompt-client")) (
    field (codes "aud") (Json.str (codes "prompt-server")) (
      field (codes "sub") (Json.str (codes "u1")) (
        field (codes "resource_access")
          (Json.obj (
            field (codes "prompt-server")
              (Json.obj (
                field (codes "roles")
                  (Json.arr (Items.cons (Json.str (codes "PROMPT_Admin")) Items.nil)) end))
              end))
          end)))

abbrev tokens : TokenVerifier
tokens = record { verify = λ t. some t; decode_claims = λ p. some admin_claims }

abbrev admin_roles : Roles
admin_roles = (codes "PROMPT_Admin", true) ∷ []

abbrev subject : SubjectIdentifiers
subject = record { user_id = 1; student_id = 2; course_participation_ids = [] }

abbrev passed : Context
passed = store_user (user_of_claims admin_claims (codes "u1") admin_roles) request

abbrev deleted : Answered SubjectIdentifiers
deleted = record { context = respond passed 200; calls = subject ∷ [] }

verified_lem : keycloak_middleware config tokens request ≡ ok passed
unfolding keycloak_middleware extract_bearer_token has_prefix trim_prefix accept_claims
    check_authorized_party find text_eq check_keycloak_roles check_audience extract_resource_access
    client_roles add_role
verified_lem = refl

listed_admin :
    (more : List Text)
    → contains (build_allowed_roles_set (prompt_admin ∷ more)) prompt_admin ≡ true
unfolding contains
listed_admin more = rw (
  contains-build_allowed_roles_set (prompt_admin ∷ more) prompt_admin,
  contains,
  text_eq_refl prompt_admin,
)

authorized_lem : (more : List Text) → authorize core (prompt_admin ∷ more) passed ≡ passed
unfolding authorize check_direct_role get_token_user store_user user_of_claims has_role text_eq
    prompt_admin
authorized_lem more = ground (arith, listed_admin more)

authenticated_lem :
    (more : List Text) → authenticate config tokens core (prompt_admin ∷ more) request ≡ ok passed
unfolding authenticate store_user
authenticated_lem more = rw (verified_lem, authenticate, authorized_lem more)

deleted_lem : data_deletion config tokens core (λ s. true) (some subject) request ≡ ok deleted
unfolding data_deletion store_user
deleted_lem = rw (authenticated_lem [])

data_deletion-calls_example :
    (u : TokenUser) × (s : SubjectIdentifiers) × Verified config tokens request u
    × (has_role u.roles prompt_admin ≡ true)
    × (some subject ≡ some s)
    × (deleted.calls ≡ s ∷ [])
data_deletion-calls_example =
    data_deletion-calls config tokens core request refl (λ s. true) (some subject) deleted
      deleted_lem (λ h. cc)

abbrev phase_deleted : Answered Uuid
phase_deleted = record { context = respond passed 200; calls = 7 ∷ [] }

phase_deleted_lem : course_phase_deletion config tokens core (λ s. true) request ≡ ok phase_deleted
unfolding course_phase_deletion store_user param text_eq
phase_deleted_lem = rw (authenticated_lem (course_lecturer ∷ []))

course_phase_deletion-calls_example :
    (u : TokenUser) × (id : Uuid) × Verified config tokens request u
    × Granted core (store_user u request) (prompt_admin ∷ course_lecturer ∷ []) u
    × (phase_deleted.calls ≡ id ∷ [])
course_phase_deletion-calls_example =
    course_phase_deletion-calls config tokens core request refl (λ s. true) phase_deleted
      phase_deleted_lem (λ h. cc)

abbrev amazon : List Text
amazon = codes "*.amazonaws.com" ∷ []

abbrev knowing_core : CoreService
knowing_core = record core { decode_subject_identifiers = λ b. some subject }

abbrev fill : Filler
fill s e =
    ok (record e { item_count = 1; archive = ZipEntry.item (codes "a") (codes "b") ∷ [] }, true)

abbrev upload : Upload
upload = record {
  writes_contents = true;
  closes = true;
  seeks = true;
  stats = true;
  makes_request = true;
  response = some 200;
}

abbrev read_url : Text → Option UploadUrl
read_url t = some (record { scheme = codes "https"; hostname = codes "s3.amazonaws.com" })

abbrev archive : List ZipEntry
archive = ZipEntry.item (codes "a") (codes "b") ∷ ZipEntry.index [] ∷ []

abbrev exported : Exported
exported = record {
  status = 200;
  called_for = some subject;
  sent = some archive;
  sent_to = some (codes "U");
  left = some (record {
    file_open = false;
    zip_open = false;
    error = none;
    finished = true;
    item_count = 1;
    entries = [];
    archive = archive;
  });
}

identified_request : get_subject_identifiers knowing_core request.authorization ≡ ok subject
unfolding get_subject_identifiers send_request
identified_request = refl

exported_lem :
    data_export_route config tokens knowing_core unicode read_url amazon fill
      (some (codes "U"))
      true
      upload
      request
    ≡ ok exported
unfolding data_export_route keycloak_middleware extract_bearer_token accept_claims
    check_authorized_party trim_prefix check_keycloak_roles check_audience find text_eq
    extract_resource_access client_roles add_role user_of_claims store_user set_token_user set
    identify_subject get_subject_identifiers send_request data_export subject_of refusal
    host_refusal is_allowed_host any_host host_matches has_prefix to_lower has_suffix finish
    has_error new_export is_empty_export upload_to close
exported_lem = refl

data_export_route-sent_example :
    (v : TokenUser) × (s : SubjectIdentifiers) × (text : Text) × (url : UploadUrl) × (e : Export)
    × Verified config tokens request v
    × (get_subject_identifiers knowing_core request.authorization ≡ ok s)
    × (exported.called_for ≡ some s)
    × (exported.sent_to ≡ some text)
    × (some (codes "U") ≡ some text)
    × (read_url text ≡ some url)
    × MayReceive unicode read_url amazon url
    × (fill s new_export ≡ ok (e, true))
    × (e.error ≡ none)
    × (e.item_count ≢ 0)
data_export_route-sent_example =
    data_export_route-sent config tokens knowing_core unicode read_url amazon fill
      (some (codes "U")) true upload request exported archive exported_lem refl
