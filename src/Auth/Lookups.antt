-- ===== src/Auth/Lookups.antt =====
-- What the two lookups at core leave in the context.
use prompt_sdk.Prelude.{
  ◌≡◌, refl, ◌⊎◌, inl, inr, true, false, some, Option-cases, Result-cases, Bool-cases, Text,
  contains, List, arith,
}
use prompt_sdk.Identity.{TokenUser, CourseRoles, Participation, has_role, course_student}
use prompt_sdk.Gin.{Context, set, param, abort}
use prompt_sdk.CoreRequests.{
  CoreService, send_is_student_request, send_course_phase_role_mapping_request,
}
use prompt_sdk.Auth.{student_part}
use prompt_sdk.Memberships.{
  get_token_user, phase_id, store_course_roles, get_lecturer_and_editor_role,
  is_student_of_course_phase_middleware,
}
use prompt_sdk.Auth.Granted.{HasCourseRoles, HasParticipation}

-- The token user behind the role lookup.
abbrev pub with_course_roles : CourseRoles → TokenUser → TokenUser
with_course_roles m u = record u {
  is_lecturer = has_role u.roles m.course_lecturer_role;
  is_editor = has_role u.roles m.course_editor_role;
  custom_role_prefix = m.custom_role_prefix;
}

module _ (core : CoreService) (c : Context) where
  pub get_token_user-store_course_roles :
      (m : CourseRoles) (u : TokenUser)
      → get_token_user (store_course_roles core m u c) ≡ some (with_course_roles m u)
  unfolding store_course_roles get_token_user
  get_token_user-store_course_roles m u = refl

  pub phase_id-store_course_roles :
      (m : CourseRoles) (u : TokenUser)
      → phase_id core (store_course_roles core m u c) ≡ phase_id core c
  unfolding store_course_roles phase_id param
  phase_id-store_course_roles m u = refl

  pub aborted-store_course_roles :
      (m : CourseRoles) (u : TokenUser) → (store_course_roles core m u c).aborted ≡ c.aborted
  unfolding store_course_roles
  aborted-store_course_roles m u = refl

  pub authorization-store_course_roles :
      (m : CourseRoles) (u : TokenUser)
      → (store_course_roles core m u c).authorization ≡ c.authorization
  unfolding store_course_roles
  authorization-store_course_roles m u = refl

  module _ (u : TokenUser) (known : get_token_user c ≡ some u) where
    -- The role lookup aborts with 400, 401 or 500, or stores the roles that core resolved.
    pub get_lecturer_and_editor_role-cases :
        ((get_lecturer_and_editor_role core c).aborted ≡ true)
        ⊎ ((m : CourseRoles) × HasCourseRoles core c m
            × (get_lecturer_and_editor_role core c ≡ store_course_roles core m u c))
    unfolding get_lecturer_and_editor_role abort
    get_lecturer_and_editor_role-cases = elim (Option-cases (phase_id core c)) [
      | inl missing ↦ inl (ground arith)
      | inr (id, found) ↦
          elim (Result-cases (send_course_phase_role_mapping_request core c.authorization id)) [
            | inl (m, sent) ↦ inr (m, (id, found, sent), ground arith)
            | inr (e, failed) ↦ inl (ground arith)
          ]
    ]

    pub get_lecturer_and_editor_role_lem :
        (m : CourseRoles)
        → HasCourseRoles core c m
        → get_lecturer_and_editor_role core c ≡ store_course_roles core m u c
    unfolding get_lecturer_and_editor_role
    get_lecturer_and_editor_role_lem m (id, found, sent) = ground arith

    -- The student part admits exactly the students of the phase, if the route lists them.
    pub student_part_sound :
        (allowed : List Text)
        → (student_part core allowed c).aborted ≡ false
        → (p : Participation) × (contains allowed course_student ≡ true)
          × HasParticipation core c p
          × (p.is_student_of_course_phase ≡ true)
    unfolding student_part is_student_of_course_phase_middleware abort get_token_user set
    student_part_sound allowed h = elim (Bool-cases (contains allowed course_student)) [
      | inl listed ↦ elim (Option-cases (phase_id core c)) [
        | inl missing ↦ absurd (ground arith)
        | inr (id, found) ↦ elim (Result-cases (send_is_student_request core c.authorization id)) [
          | inl (p, sent) ↦ (p, listed, (id, found, sent), ground arith)
          | inr (e, failed) ↦ absurd (ground arith)
        ]
      ]
      | inr unlisted ↦ absurd (ground arith)
    ]

    pub student_part_complete :
        (allowed : List Text) (p : Participation)
        → c.aborted ≡ false
        → contains allowed course_student ≡ true
        → HasParticipation core c p
        → p.is_student_of_course_phase ≡ true
        → (student_part core allowed c).aborted ≡ false
    unfolding student_part is_student_of_course_phase_middleware abort get_token_user set
    student_part_complete allowed p open_ listed (id, found, sent) in_phase = ground arith
