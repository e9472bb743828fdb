-- ===== src/Auth.antt =====
-- keycloakTokenVerifier: the middlewares that decide who may call a route (authMiddleware.go,
-- subjectIdentifierMiddleware.go).
pub mod RoleSets
pub mod Lookups
pub mod Granted
pub mod Decision
pub mod Passed
pub mod Admitted
pub mod Kept
pub mod Reasons
pub mod Refusals
pub mod Platform
use prompt_sdk.Prelude.{
  ℕ, Bool, true, false, not, ◌&&◌, ◌||◌, Option, none, some, List, [], ◌∷◌, ◌++◌, Text, codes,
  text_eq, is_empty, contains, any, ◌==◌, Result, ok, err, if◌then◌else◌,
}
use prompt_sdk.Identity.{
  Uuid, nil_uuid, Roles, has_role, TokenUser, CourseRoles, Participation, prompt_admin,
  prompt_lecturer, course_lecturer, course_editor, course_student,
}
use prompt_sdk.Gin.{Key, Value, Context, set, param, abort, Handler, in_front}
use prompt_sdk.Memberships.{
  get_token_user, get_lecturer_and_editor_role, is_student_of_course_phase_middleware,
}
use prompt_sdk.CoreRequests.{
  CoreService, CoreError, unauthenticated, not_student_of_course, unauthorized, unexpected_response,
  not_sent, not_decoded, send_is_student_request, send_course_phase_role_mapping_request,
  get_subject_identifiers,
}

-- `map[string]struct{}` as the list of its keys
add_to_set : List Text → Text → List Text
unfolding contains
add_to_set set_ role = if contains set_ role then set_ else role ∷ set_

build_from : List Text → List Text → List Text
unfolding add_to_set
build_from set_ [] = set_
build_from set_ (role ∷ roles) = build_from (add_to_set set_ role) roles

unfoldable pub build_allowed_roles_set : List Text → List Text
unfolding build_from
build_allowed_roles_set roles = build_from [] roles

unfoldable pub check_direct_role : Text → List Text → Roles → Bool
check_direct_role role allowed_set user_roles =
    if contains allowed_set role && has_role user_roles role then true else false

abbrev pub built_in_roles : List Text
built_in_roles =
    prompt_admin ∷ prompt_lecturer ∷ course_lecturer ∷ course_editor ∷ course_student ∷ []

unfoldable pub is_custom_role : Text → Bool
is_custom_role role = not (contains built_in_roles role)

unfoldable pub contains_custom_role_name : List Text → Bool
contains_custom_role_name allowed_roles = any is_custom_role allowed_roles

unfoldable pub requires_lecturer_or_custom : List Text → List Text → Bool
unfolding contains_custom_role_name
requires_lecturer_or_custom allowed_set roles =
    let has_lecturer = contains allowed_set course_lecturer in
    let has_editor = contains allowed_set course_editor in
    has_lecturer || (has_editor || contains_custom_role_name roles)

unfoldable pub any_custom_role : Text → List Text → Roles → Bool
any_custom_role prefix [] user_roles = false
any_custom_role prefix (role ∷ allowed_roles) user_roles =
    if is_custom_role role && has_role user_roles (prefix ++ role)
    then true
    else any_custom_role prefix allowed_roles user_roles

unfoldable pub matches_custom_role : Text → List Text → Roles → Bool
matches_custom_role prefix allowed_roles user_roles =
    if is_empty prefix then false else any_custom_role prefix allowed_roles user_roles

unfoldable pub only_contains_admin_and_lecturer : List Text → Bool
only_contains_admin_and_lecturer [] = true
only_contains_admin_and_lecturer (role ∷ roles) =
    if not (text_eq role prompt_admin) && not (text_eq role prompt_lecturer)
    then false
    else only_contains_admin_and_lecturer roles

-- What a core error is answered with by the subject lookup.
pub subject_error_status : CoreError → ℕ
subject_error_status unauthorized = 401
subject_error_status _ = 500

module _ (core : CoreService) where
  -- the end of authorizationMiddleware: what follows the student lookup
  student_verdict : Context → Context
  student_verdict c = if c.aborted then c else elim (get_token_user c) [
    | none ↦ abort c 401
    | some u ↦ if u.is_student_of_course_phase then c else abort c 403
  ]

  -- its third part, and the denial at its end
  pub student_part : List Text → Context → Context
  unfolding student_verdict
  student_part allowed_set c =
      if contains allowed_set course_student
      then student_verdict (is_student_of_course_phase_middleware core c)
      else abort c 403

  -- its second part, after the role lookup
  pub course_verdict : List Text → List Text → Context → Context
  unfolding student_part
  course_verdict allowed_set allowed_roles c = if c.aborted then c else elim (get_token_user c) [
    | none ↦ abort c 401
    | some u ↦
        if contains allowed_set course_lecturer && u.is_lecturer
        then c
        else if contains allowed_set course_editor && u.is_editor
        then c
        else if matches_custom_role u.custom_role_prefix allowed_roles u.roles
        then c
        else student_part allowed_set c
  ]

  -- its first part
  role_verdict : List Text → List Text → TokenUser → Context → Context
  unfolding course_verdict
  role_verdict allowed_set allowed_roles u c =
      if check_direct_role prompt_admin allowed_set u.roles
        || check_direct_role prompt_lecturer allowed_set u.roles
      then c
      else if only_contains_admin_and_lecturer allowed_set
      then abort c 403
      else if requires_lecturer_or_custom allowed_set allowed_roles
      then course_verdict allowed_set allowed_roles (get_lecturer_and_editor_role core c)
      else student_part allowed_set c

  -- The request goes on to the handler exactly if the result is not aborted: each `c.Next()` of
  -- the source stands right before a return.
  unfoldable pub authorize : List Text → Context → Context
  unfolding role_verdict
  authorize allowed_roles c = elim (get_token_user c) [
    | none ↦ abort c 401
    | some u ↦ role_verdict (build_allowed_roles_set allowed_roles) allowed_roles u c
  ]

  unfoldable pub authorization_middleware : List Text → Handler
  unfolding authorize
  authorization_middleware allowed_roles = in_front (authorize allowed_roles)

  -- subjectIdentifierMiddleware.go
  unfoldable pub identify_subject : Context → Context
  unfolding subject_error_status
  identify_subject c =
      if is_empty c.authorization
      then abort c 401
      else elim (get_subject_identifiers core c.authorization) [
        | err e ↦ abort c (subject_error_status e)
        | ok s ↦ set c Key.subject_identifiers (Value.subject s)
      ]

  unfoldable pub subject_identifier_middleware : Handler
  unfolding identify_subject
  subject_identifier_middleware = in_front identify_subject
