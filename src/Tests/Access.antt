-- ===== src/Tests/Access.antt =====
-- The theorems on authentication, authorization and tutor scoping at concrete requests.
use prompt_sdk.Prelude.{
  ◌≢◌, ◌≡◌, refl, ◌↔◌, ◌⊎◌, true, false, none, some, List, [], ◌∷◌, Text, codes, text_eq, ok, err,
  trim_space, to_lower,
}
use prompt_sdk.Identity.{
  nil_uuid, Uuid, has_role, add_role, TokenUser, prompt_admin, course_lecturer, course_student,
}
use prompt_sdk.Gin.{param, Context}
use prompt_sdk.Json.{Object, find, as_object, Json}
use prompt_sdk.Auth.{authorize}
use prompt_sdk.Memberships.{get_token_user}
use prompt_sdk.Auth.Granted.{Granted}
use prompt_sdk.Auth.Decision.{authorize-Granted_iff}
use prompt_sdk.Auth.Reasons.{Refused}
use prompt_sdk.Auth.Refusals.{authorize-Refused}
use prompt_sdk.Keycloak.{
  check_audience, extract_resource_access, client_roles, check_keycloak_roles, panicked, store_user,
}
use prompt_sdk.Keycloak.Claims.{
  GivesRole, HasAudience, check_keycloak_roles-GivesRole_iff, check_keycloak_roles_panics_iff,
}
use prompt_sdk.Keycloak.Sound.{Verified, Passes, authenticate-Passes_iff}
use prompt_sdk.TutorScope.{
  get_tutor_team_id, select_teams, login_matches, Resolver, normalize, scope, TutorRow,
  resolve_tutor_team, phase_has_tutors, Access, authorize_write, allows_team, guard, Allocation,
  update_team,
}
use prompt_sdk.TutorScope.Read.{unscoped_iff}
use prompt_sdk.TutorScope.Write.{Assigned, scoped_write_iff, outside, outside-update_team}
use prompt_sdk.Tests.World.{
  core, config, tokens, good_claims, odd_claims, request, request_of, lecturer, tutor, unicode,
  parse,
}

abbrev route : List Text
route = prompt_admin ∷ course_lecturer ∷ []

known : get_token_user (request_of lecturer) ≡ some lecturer
unfolding get_token_user
known = refl

authenticate-Passes_iff_example : ((d : Context) × Passes config tokens core route request d) ↔ (
    (u : TokenUser) × Verified config tokens request u
    × Granted core (store_user u request) route u)
authenticate-Passes_iff_example = authenticate-Passes_iff config tokens core route request refl

authorize-Granted_iff_example :
    ((authorize core route (request_of lecturer)).aborted ≡ false)
    ↔ Granted core (request_of lecturer) route lecturer
authorize-Granted_iff_example =
    authorize-Granted_iff core route (request_of lecturer) lecturer refl known

authorize-Refused_example :
    ((authorize core (course_student ∷ []) (request_of lecturer)).aborted ≡ false)
    ⊎ ((¬ Granted core (request_of lecturer) (course_student ∷ []) lecturer)
        × Refused core
            (request_of lecturer)
            (course_student ∷ [])
            (authorize core (course_student ∷ []) (request_of lecturer)).status)
authorize-Refused_example =
    authorize-Refused core (request_of lecturer) (course_student ∷ []) lecturer refl known

read : check_keycloak_roles config good_claims ≡ ok lecturer.roles
unfolding check_keycloak_roles check_audience find text_eq extract_resource_access client_roles
    add_role
read = refl

check_keycloak_roles-GivesRole_iff_example :
    (has_role lecturer.roles (codes "ios-Lecturer") ≡ true)
    ↔ GivesRole good_claims config.client_id (codes "ios-Lecturer")
check_keycloak_roles-GivesRole_iff_example =
    check_keycloak_roles-GivesRole_iff config good_claims lecturer.roles (codes "ios-Lecturer") read

check_keycloak_roles_panics_iff_example :
    (check_keycloak_roles config odd_claims ≡ err panicked) ↔ (
      HasAudience odd_claims config.client_id
      × ((access : Object) × (find odd_claims (codes "resource_access") ≡ some (Json.obj access))
          × (as_object (find access config.client_id) ≡ none)))
check_keycloak_roles_panics_iff_example = check_keycloak_roles_panics_iff config odd_claims

abbrev rows : List TutorRow
rows =
    record { course_phase_id = 7; university_login = some (codes "ab12xyz"); team_id = some 3 } ∷ []

abbrev resolver : Resolver
resolver = λ phase login. ok 3

scoped_write_iff_example :
    (allows_team (authorize_write (scope unicode parse resolver (request_of tutor))).0 3 ≡ true)
    ↔ Assigned unicode parse resolver (request_of tutor) tutor 3
unfolding get_token_user get_tutor_team_id has_role
scoped_write_iff_example =
    scoped_write_iff unicode parse resolver (request_of tutor) tutor refl refl refl refl refl 3

unscoped_iff_example :
    (((scope unicode parse (resolve_tutor_team unicode rows false) (request_of tutor)).aborted
        ≡ false)
      × (get_tutor_team_id
            (scope unicode parse (resolve_tutor_team unicode rows false) (request_of tutor))
          ≡ none))
    ↔ ((phase : Uuid) × (parse (param (request_of tutor) (codes "coursePhaseID")) ≡ some phase)
        × (phase ≢ nil_uuid)
        × (false ≡ false)
        × (phase_has_tutors rows phase ≡ false))
unfolding get_token_user get_tutor_team_id
unscoped_iff_example =
    unscoped_iff unicode parse rows false (request_of tutor) tutor refl refl refl refl refl

abbrev confined : Access
confined = record { team_id = 3; confined = true; granted = true }

abbrev allocations : List Allocation
allocations =
    record { course_participation_id = 1; course_phase_id = 7; team = 3 }
    ∷ record { course_participation_id = 2; course_phase_id = 7; team = 4 }
    ∷ []

outside-update_team_example :
    outside 3 (update_team (guard confined) 2 7 3 allocations) ≡ outside 3 allocations
unfolding allows_team
outside-update_team_example = outside-update_team confined 2 7 3 allocations refl refl

found : resolve_tutor_team unicode rows false 7 (codes " AB12xyz") ≡ ok 3
unfolding resolve_tutor_team normalize trim_space to_lower select_teams login_matches text_eq
    phase_has_tutors
found = refl
