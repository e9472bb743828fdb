-- ===== src/Mocks.antt =====
-- testutils/mockAuthMiddleware.go: the middlewares that stand for the authentication in tests.
use prompt_sdk.Prelude.{
  ◌≡◌, refl, true, false, ◌||◌, some, List, [], ◌∷◌, ◌++◌, Text, codes, contains, arith,
}
use prompt_sdk.Identity.{
  Uuid, nil_uuid, Roles, TokenUser, add_role, has_role, has_role-add_role, course_editor,
}
use prompt_sdk.Gin.{Context, Value, Key, set, key_eq}
use prompt_sdk.Memberships.{set_token_user, get_token_user}

-- `userRoles[role] = true` for each role
unfoldable pub mock_roles : List Text → Roles → Roles
mock_roles [] m = m
mock_roles (role ∷ roles) m = mock_roles roles (add_role m role)

-- the keys that are kept for old services
unfoldable pub store_keys : TokenUser → Context → Context
store_keys u c =
    let c₁ = set c Key.user_roles (Value.role_map u.roles) in
    let c₂ = set c₁ Key.user_email (Value.str u.email) in
    let c₃ = set c₂ Key.matriculation_number (Value.str u.matriculation_number) in
    let c₄ = set c₃ Key.university_login (Value.str u.university_login) in
    let c₅ = set c₄ Key.first_name (Value.str u.first_name) in
    set c₅ Key.last_name (Value.str u.last_name)

abbrev mock_user : Roles → Text → Text → Text → Text → Text → TokenUser
mock_user roles email matriculation_number university_login first_name last_name = record {
  roles = roles;
  id = [];
  email = email;
  matriculation_number = matriculation_number;
  university_login = university_login;
  first_name = first_name;
  last_name = last_name;
  is_student_of_course = false;
  is_student_of_course_phase = false;
  course_participation_id = nil_uuid;
  is_lecturer = false;
  is_editor = false;
  custom_role_prefix = [];
}

unfoldable pub user_with_email : List Text → Text → Text → Text → TokenUser
user_with_email roles email matriculation_number university_login =
    mock_user (mock_roles roles []) email matriculation_number university_login (codes "John")
      (codes "Doe")

unfoldable pub mock_auth_middleware_with_email : List Text → Text → Text → Text → Context → Context
unfolding store_keys set_token_user
mock_auth_middleware_with_email roles email matriculation_number university_login c =
    let u = user_with_email roles email matriculation_number university_login in
    set_token_user (store_keys u c) u

unfoldable pub mock_auth_middleware : List Text → Context → Context
mock_auth_middleware roles c = mock_auth_middleware_with_email roles [] [] [] c

unfoldable pub user_with_participation : List Text → Uuid → TokenUser
user_with_participation roles id =
    record (mock_user (mock_roles roles []) (codes "test@example.com") (codes "0000000")
      (codes "testuser") (codes "Test") (codes "User")) { course_participation_id = id }

unfoldable pub mock_auth_middleware_with_participation : List Text → Uuid → Context → Context
unfolding store_keys set_token_user
mock_auth_middleware_with_participation roles id c =
    let u = user_with_participation roles id in
    set_token_user (set (store_keys u c) Key.course_participation_id (Value.uuid id)) u

unfoldable pub default_mock_auth_middleware : Context → Context
default_mock_auth_middleware =
    mock_auth_middleware_with_participation [] 0x33333333333333333333333333333333

unfoldable pub tutor_editor : Text → TokenUser
tutor_editor university_login =
    record (mock_user ((course_editor, true) ∷ []) (university_login ++ codes "@tum.de")
      (codes "0000000") university_login (codes "Tutor") (codes "Editor")) { is_editor = true }

unfoldable pub mock_tutor_editor_middleware : Text → Context → Context
unfolding store_keys set_token_user
mock_tutor_editor_middleware university_login c =
    let u = tutor_editor university_login in set_token_user (store_keys u c) u

has_role-mock_roles :
    (roles : List Text) (m : Roles) (role : Text)
    → has_role (mock_roles roles m) role ≡ (contains roles role || has_role m role)
unfolding mock_roles contains
has_role-mock_roles [] m role = refl
has_role-mock_roles (r ∷ roles) m role =
    ground (arith, has_role-mock_roles roles (add_role m r) role, has_role-add_role m r role)

get_token_user-set_token_user :
    (u : TokenUser) (c : Context) → get_token_user (set_token_user c u) ≡ some u
unfolding get_token_user set_token_user set key_eq
get_token_user-set_token_user u c = refl

-- Behind the mock, the request has a token user who holds exactly the given roles.
pub mock_auth-has_role :
    (roles : List Text) (email matriculation_number university_login role : Text) (c : Context)
    → (u : TokenUser) × (get_token_user
          (mock_auth_middleware_with_email roles email matriculation_number university_login c)
        ≡ some u)
      × (has_role u.roles role ≡ contains roles role)
unfolding mock_auth_middleware_with_email
mock_auth-has_role roles email matriculation_number university_login role c =
    let u = user_with_email roles email matriculation_number university_login in
    let listed : has_role u.roles role ≡ contains roles role =
      unfold user_with_email has_role in ground (arith, has_role-mock_roles roles [] role) in
    (u, get_token_user-set_token_user u (store_keys u c), listed)
