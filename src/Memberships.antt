-- ===== src/Memberships.antt =====
-- keycloakTokenVerifier: the user of a request and what core says of them for a course phase
-- (tokenUser.go, getLecturerAndEditorRole.go, getIsStudent.go).
use prompt_sdk.Prelude.{
  ℕ, true, false, Option, none, some, codes, ◌==◌, Result, ok, err, if◌then◌else◌,
}
use prompt_sdk.Identity.{Uuid, nil_uuid, has_role, TokenUser, CourseRoles, Participation}
use prompt_sdk.Gin.{Key, Value, Context, set, param, abort}
use prompt_sdk.CoreRequests.{
  CoreService, CoreError, unauthenticated, not_student_of_course, send_is_student_request,
  send_course_phase_role_mapping_request,
}

-- tokenUser.go: a value of another type under the key counts as no user
unfoldable pub get_token_user : Context → Option TokenUser
get_token_user c = elim (c.keys Key.token_user) [ some (Value.user u) ↦ some u | _ ↦ none ]

unfoldable pub set_token_user : Context → TokenUser → Context
unfolding set
set_token_user c u = set c Key.token_user (Value.user u)

-- What a core error is answered with by getLecturerAndEditorRole.
unfoldable pub role_error_status : CoreError → ℕ
role_error_status unauthenticated = 401
role_error_status _ = 500

module _ (core : CoreService) where
  -- The `coursePhaseID` parameter, parsed and not the nil UUID.
  unfoldable pub phase_id : Context → Option Uuid
  phase_id c = elim (core.parse_uuid (param c (codes "coursePhaseID"))) [
    | none ↦ none
    | some id ↦ if id == nil_uuid then none else some id
  ]

  -- the writes of getLecturerAndEditorRole
  unfoldable pub store_course_roles : CourseRoles → TokenUser → Context → Context
  unfolding set_token_user
  store_course_roles mapping u c =
      let lecturer = has_role u.roles mapping.course_lecturer_role in
      let editor = has_role u.roles mapping.course_editor_role in
      let c₁ = set c Key.is_lecturer (Value.flag lecturer) in
      let c₂ = set c₁ Key.is_editor (Value.flag editor) in
      let c₃ = set c₂ Key.custom_role_prefix (Value.str mapping.custom_role_prefix) in
      let u' : TokenUser = record u {
        is_lecturer = lecturer;
        is_editor = editor;
        custom_role_prefix = mapping.custom_role_prefix;
      } in
      set (set_token_user c₃ u') Key.course_roles_resolved (Value.flag true)

  unfoldable pub course_roles_answer : Context → Result CoreError CourseRoles → Context
  unfolding store_course_roles role_error_status
  course_roles_answer c (err e) = abort c (role_error_status e)
  course_roles_answer c (ok mapping) = elim (get_token_user c) [
    | none ↦ abort c 500
    | some u ↦ store_course_roles mapping u c
  ]

  unfoldable pub get_lecturer_and_editor_role : Context → Context
  unfolding course_roles_answer
  get_lecturer_and_editor_role c = elim (phase_id c) [
    | none ↦ abort c 400
    | some id ↦
        course_roles_answer c (send_course_phase_role_mapping_request core c.authorization id)
  ]

  -- the writes of isStudentOfCoursePhaseMiddleware on a denial
  unfoldable pub clear_student : Context → Context
  unfolding set_token_user
  clear_student c =
      let c₁ = set c Key.is_student_of_course (Value.flag false) in
      let c₂ = set c₁ Key.is_student_of_course_phase (Value.flag false) in
      elim (get_token_user c₂) [
        | none ↦ c₂
        | some u ↦
            set_token_user c₂
              (record u { is_student_of_course = false; is_student_of_course_phase = false })
      ]

  -- its writes on an answer
  unfoldable pub store_student : Participation → Context → Context
  unfolding set_token_user
  store_student p c =
      let c₁ = set c Key.is_student_of_course (Value.flag true) in
      let c₂ = set c₁ Key.is_student_of_course_phase (Value.flag p.is_student_of_course_phase) in
      let c₃ = set c₂ Key.course_participation_id (Value.uuid p.course_participation_id) in
      elim (get_token_user c₃) [
        | none ↦ abort c₃ 500
        | some u ↦ set_token_user c₃ (record u {
          is_student_of_course = true;
          is_student_of_course_phase = p.is_student_of_course_phase;
          course_participation_id = p.course_participation_id;
        })
      ]

  unfoldable pub student_answer : Context → Result CoreError Participation → Context
  unfolding clear_student store_student
  student_answer c (ok p) = store_student p c
  student_answer c (err unauthenticated) = abort c 401
  student_answer c (err not_student_of_course) = clear_student c
  student_answer c (err _) = abort c 500

  unfoldable pub is_student_of_course_phase_middleware : Context → Context
  unfolding student_answer
  is_student_of_course_phase_middleware c = elim (phase_id c) [
    | none ↦ abort c 400
    | some id ↦ student_answer c (send_is_student_request core c.authorization id)
  ]
