-- ===== src/Identity.antt =====
-- Who makes a request: keycloakTokenVerifier/tokenUser.go and roles.go, the identifiers of
-- keycloakCoreRequests/subjectIdentifiers.go, and the answers of keycloakTokenVerifierDTO.
-- A `uuid.UUID` is a number, the nil UUID is 0; a Go `map[string]bool` is a list of its entries.
use prompt_sdk.Prelude.{
  ℕ, ◌≡◌, Bool, true, false, ◌||◌, List, [], ◌∷◌, Text, codes, text_eq, text_eq_iff, arith,
  if◌then◌else◌,
}

abbrev pub Uuid : Type 0
Uuid = ℕ

abbrev pub nil_uuid : Uuid
nil_uuid = 0

abbrev pub Roles : Type 0
Roles = List (Text × Bool)

-- `roles[role]`, false where the map has no such key
unfoldable pub has_role : Roles → Text → Bool
has_role [] role = false
has_role ((k, v) ∷ roles) role = if text_eq k role then v else has_role roles role

-- `roles[role] = true`
unfoldable pub add_role : Roles → Text → Roles
add_role [] role = (role, true) ∷ []
add_role ((k, v) ∷ roles) role =
    if text_eq k role then (k, true) ∷ roles else (k, v) ∷ add_role roles role

pub has_role-add_role :
    (roles : Roles) (added role : Text)
    → has_role (add_role roles added) role ≡ (text_eq added role || has_role roles role)
unfolding has_role add_role
has_role-add_role [] added role = ground arith
has_role-add_role ((k, v) ∷ roles) added role = ground (
  arith,
  text_eq_iff k added,
  text_eq_iff k role,
  text_eq_iff added role,
  has_role-add_role roles added role,
)

-- roles.go
unfoldable pub prompt_admin : Text
prompt_admin = codes "PROMPT_Admin"

unfoldable pub prompt_lecturer : Text
prompt_lecturer = codes "PROMPT_Lecturer"

unfoldable pub course_lecturer : Text
course_lecturer = codes "Lecturer"

unfoldable pub course_editor : Text
course_editor = codes "Editor"

unfoldable pub course_student : Text
course_student = codes "Student"

pub record TokenUser : Type 0 where
  pub roles : Roles
  pub id : Text
  pub email : Text
  pub matriculation_number : Text
  pub university_login : Text
  pub first_name : Text
  pub last_name : Text
  pub is_student_of_course : Bool
  pub is_student_of_course_phase : Bool
  pub course_participation_id : Uuid
  pub is_lecturer : Bool
  pub is_editor : Bool
  pub custom_role_prefix : Text

pub record SubjectIdentifiers : Type 0 where
  pub user_id : Uuid
  pub student_id : Uuid
  pub course_participation_ids : List Uuid

-- keycloakTokenVerifierDTO/get_roles.go
pub record CourseRoles : Type 0 where
  pub course_lecturer_role : Text
  pub course_editor_role : Text
  pub custom_role_prefix : Text

-- keycloakTokenVerifierDTO/get_course_phase_participation.go
pub record Participation : Type 0 where
  pub is_student_of_course_phase : Bool
  pub course_participation_id : Uuid
