-- ===== src/CoreRequests.antt =====
-- keycloakTokenVerifier/keycloakCoreRequests: the requests that a service sends to core. The
-- network, the JSON decoder and the UUID library are the parameter `CoreService`.
use prompt_sdk.Prelude.{
  ℕ, Option, none, some, ◌++◌, Text, codes, is_empty, ◌==◌, Result, ok, err, if◌then◌else◌, ◌>>=◌,
}
use prompt_sdk.Identity.{Uuid, CourseRoles, Participation, SubjectIdentifiers}

pub record Request : Type 0 where
  pub method : Text
  pub path : Text
  pub authorization : Option Text  -- no header if `none`
  pub content_type : Text

pub record Response : Type 0 where
  pub status_code : ℕ
  pub body : Text

-- What a request may fail with. The source tells apart its four sentinel errors by `errors.Is`.
pub data CoreError : Type 0 where
  unauthenticated : CoreError  -- ErrUnauthenticated
  not_student_of_course : CoreError  -- ErrNotStudentOfCourse
  unauthorized : CoreError  -- ErrUnauthorized
  unexpected_response : ℕ → CoreError
  not_sent : CoreError
  not_decoded : CoreError

pub record CoreService : Type 0 where
  -- `client.Do`: `none` if no request could be built or no answer came
  pub send : Request → Option Response
  pub decode_course_roles : Text → Option CourseRoles
  pub decode_participation : Text → Option Participation
  pub decode_subject_identifiers : Text → Option SubjectIdentifiers
  -- `uuid.Parse` and `UUID.String`
  pub parse_uuid : Text → Option Uuid
  pub uuid_text : Uuid → Text

module _ (core : CoreService) where
  -- sendCoreRequest.go; the client follows with a path below the core URL
  unfoldable pub send_request : Text → Text → Text → Result CoreError Response
  send_request method path auth =
      elim (core.send (record {
        method = method;
        path = path;
        authorization = if is_empty auth then none else some auth;
        content_type = codes "application/json";
      })) [ none ↦ err not_sent | some response ↦ ok response ]

  decoded {ℓ} : {A : Type ℓ} → Option A → Result CoreError A
  decoded none = err not_decoded
  decoded (some a) = ok a

  unfoldable pub send_is_student_request : Text → Uuid → Result CoreError Participation
  unfolding send_request decoded
  send_is_student_request auth phase = do
    resp ←
        send_request (codes "GET")
          (codes "/api/auth/course_phase/" ++ (core.uuid_text phase ++ codes "/is_student")) auth
    if resp.status_code == 401
        then err unauthenticated
        else if resp.status_code == 403
        then err not_student_of_course
        else if resp.status_code == 200
        then decoded (core.decode_participation resp.body)
        else err (unexpected_response resp.status_code)

  unfoldable pub send_course_phase_role_mapping_request : Text → Uuid → Result CoreError CourseRoles
  unfolding send_request decoded
  send_course_phase_role_mapping_request auth phase = do
    resp ←
        send_request (codes "GET")
          (codes "/api/auth/course_phase/" ++ (core.uuid_text phase ++ codes "/roles")) auth
    if resp.status_code == 401
        then err unauthenticated
        else if resp.status_code == 200
        then decoded (core.decode_course_roles resp.body)
        else err (unexpected_response resp.status_code)

  unfoldable pub get_subject_identifiers : Text → Result CoreError SubjectIdentifiers
  unfolding send_request decoded
  get_subject_identifiers auth = do
    resp ← send_request (codes "GET") (codes "/api/auth/subject_identifiers") auth
    if resp.status_code == 401
        then err unauthorized
        else if resp.status_code == 200
        then decoded (core.decode_subject_identifiers resp.body)
        else err (unexpected_response resp.status_code)
