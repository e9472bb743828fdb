-- ===== src/Keycloak.antt =====
-- keycloakTokenVerifier/keycloakMiddleware.go and main.go: the token of a request and its claims.
-- The OIDC verifier is the parameter `TokenVerifier`.
pub mod Claims
pub mod Sound
use prompt_sdk.Prelude.{
  Bool, true, false, not, ◌||◌, Option, none, some, List, [], ◌∷◌, Text, codes, text_eq, is_empty,
  has_prefix, trim_prefix, Result, ok, err, if◌then◌else◌,
}
use prompt_sdk.Identity.{Roles, add_role, TokenUser, nil_uuid}
use prompt_sdk.Gin.{Key, Value, Context, set, abort}
use prompt_sdk.Json.{
  Json, str, arr, null, bool, num, obj, Items, nil, cons, Object, find, as_string, as_array,
  as_object,
}
use prompt_sdk.CoreRequests.{CoreService}
use prompt_sdk.Auth.{authorize}
use prompt_sdk.Memberships.{set_token_user}

-- The configuration that InitKeycloakTokenVerifier stores, and its two constants.
pub record VerifierConfig : Type 0 where
  pub client_id : Text
  pub expected_authorized_party : Text

unfoldable pub init_keycloak_token_verifier : VerifierConfig
init_keycloak_token_verifier = record {
  client_id = codes "prompt-server";
  expected_authorized_party = codes "prompt-client";
}

pub record TokenVerifier : Type 0 where
  -- `verifier.Verify`: the payload of a token that the provider signed and that has not expired
  pub verify : Text → Option Text
  -- `idToken.Claims`
  pub decode_claims : Text → Option Object

-- A run that ends in a panic of the goroutine has no context to go on with.
pub data Panic : Type 0 where
  interface_conversion : Panic

-- Why no roles could be read: an error of checkKeycloakRoles, or its unchecked assertion.
pub data RolesFault : Type 0 where
  could_not_authenticate : RolesFault
  panicked : RolesFault

unfoldable pub extract_bearer_token : Context → Option Text
extract_bearer_token c =
    if is_empty c.authorization || not (has_prefix c.authorization (codes "Bearer "))
    then none
    else some (trim_prefix c.authorization (codes "Bearer "))

any_string : Items → Text → Bool
any_string nil expected = false
any_string (cons (str s) xs) expected = if text_eq s expected then true else any_string xs expected
any_string (cons _ xs) expected = any_string xs expected

audience_matches : Option Json → Text → Bool
unfolding any_string
audience_matches (some (str s)) expected = text_eq s expected
audience_matches (some (arr xs)) expected = any_string xs expected
audience_matches _ expected = false

unfoldable pub check_audience : Object → Text → Bool
unfolding audience_matches
check_audience claims expected = audience_matches (find claims (codes "aud")) expected

party_matches : Option Json → Text → Bool
party_matches (some (str s)) expected = text_eq s expected
party_matches _ expected = false

unfoldable pub check_authorized_party : Object → Text → Bool
unfolding party_matches
check_authorized_party claims expected = party_matches (find claims (codes "azp")) expected

unfoldable pub extract_resource_access : Object → Option Object
extract_resource_access claims = as_object (find claims (codes "resource_access"))

-- the loop over the roles: what is no string is passed over
unfoldable pub add_roles : Roles → Items → Roles
add_roles roles nil = roles
add_roles roles (cons (str role) xs) = add_roles (add_role roles role) xs
add_roles roles (cons _ xs) = add_roles roles xs

-- `resourceAccess[ClientID].(map[string]interface{})["roles"]`: only the lookup of "roles" is
-- checked, the assertion before it panics.
unfoldable pub client_roles : Object → Text → Result RolesFault Roles
unfolding add_roles
client_roles access client_id = elim (as_object (find access client_id)) [
  | none ↦ err panicked
  | some client ↦ elim (as_array (find client (codes "roles"))) [
    | none ↦ err could_not_authenticate
    | some xs ↦ ok (add_roles [] xs)
  ]
]

unfoldable pub check_keycloak_roles : VerifierConfig → Object → Result RolesFault Roles
check_keycloak_roles config claims =
    if not (check_audience claims config.client_id)
    then ok []
    else elim (extract_resource_access claims) [
      | none ↦ err could_not_authenticate
      | some access ↦ client_roles access config.client_id
    ]

-- the assertion `s, ok := …` that goes on with the empty text
abbrev or_empty : Option Text → Text
or_empty none = []
or_empty (some s) = s

unfoldable pub user_of_claims : Object → Text → Roles → TokenUser
user_of_claims claims user_id roles = record {
  roles = roles;
  id = user_id;
  email = or_empty (as_string (find claims (codes "email")));
  matriculation_number = or_empty (as_string (find claims (codes "matriculation_number")));
  university_login = or_empty (as_string (find claims (codes "university_login")));
  first_name = or_empty (as_string (find claims (codes "given_name")));
  last_name = or_empty (as_string (find claims (codes "family_name")));
  is_student_of_course = false;
  is_student_of_course_phase = false;
  course_participation_id = nil_uuid;
  is_lecturer = false;
  is_editor = false;
  custom_role_prefix = [];
}

-- the context keys that are kept for old services, and the token user
unfoldable pub store_user : TokenUser → Context → Context
unfolding set_token_user
store_user u c =
    let c₁ = set c Key.user_roles (Value.role_map u.roles) in
    let c₂ = set c₁ Key.user_id (Value.str u.id) in
    let c₃ = set c₂ Key.user_email (Value.str u.email) in
    let c₄ = set c₃ Key.matriculation_number (Value.str u.matriculation_number) in
    let c₅ = set c₄ Key.university_login (Value.str u.university_login) in
    let c₆ = set c₅ Key.first_name (Value.str u.first_name) in
    let c₇ = set c₆ Key.last_name (Value.str u.last_name) in set_token_user c₇ u

roles_answer : Object → Text → Context → Result RolesFault Roles → Result Panic Context
unfolding store_user user_of_claims
roles_answer claims user_id c (ok roles) = ok (store_user (user_of_claims claims user_id roles) c)
roles_answer claims user_id c (err could_not_authenticate) = ok (abort c 401)
roles_answer claims user_id c (err panicked) = err interface_conversion

-- what KeycloakMiddleware does with the claims of a verified token
unfoldable pub accept_claims : VerifierConfig → Object → Context → Result Panic Context
unfolding roles_answer
accept_claims config claims c =
    if not (check_authorized_party claims config.expected_authorized_party)
    then ok (abort c 401)
    else elim (as_string (find claims (codes "sub"))) [
      | none ↦ ok (abort c 401)
      | some user_id ↦ roles_answer claims user_id c (check_keycloak_roles config claims)
    ]

module _ (config : VerifierConfig) (tokens : TokenVerifier) where
  unfoldable pub keycloak_middleware : Context → Result Panic Context
  keycloak_middleware c = elim (extract_bearer_token c) [
    | none ↦ ok (abort c 401)
    | some token ↦ elim (tokens.verify token) [
      | none ↦ ok (abort c 401)
      | some payload ↦ elim (tokens.decode_claims payload) [
        | none ↦ ok (abort c 401)
        | some claims ↦ accept_claims config claims c
      ]
    ]
  ]

  -- AuthenticationMiddleware: the Keycloak middleware, then the authorization
  unfoldable pub authenticate : CoreService → List Text → Context → Result Panic Context
  authenticate core allowed_roles c = elim (keycloak_middleware c) [
    | err p ↦ err p
    | ok d ↦ if d.aborted then ok d else ok (authorize core allowed_roles d)
  ]
