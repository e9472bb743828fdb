-- ===== src/Auth/Granted.antt =====
-- Who may call a route, as rules, next to the roles that the middleware computes with.
use prompt_sdk.Prelude.{◌≡◌, ◌≢◌, true, ◌⊎◌, some, List, [], ◌++◌, Text, contains, ok}
use prompt_sdk.Identity.{
  Uuid, TokenUser, CourseRoles, Participation, has_role, prompt_admin, prompt_lecturer,
  course_lecturer, course_editor, course_student,
}
use prompt_sdk.Gin.{Context}
use prompt_sdk.CoreRequests.{
  CoreService, send_is_student_request, send_course_phase_role_mapping_request,
}
use prompt_sdk.Auth.{is_custom_role}
use prompt_sdk.Memberships.{phase_id}
use prompt_sdk.Auth.RoleSets.{NeedsCourseRoles}

module _ (core : CoreService) (c : Context) where
  -- Core resolved the roles of the course phase that the path names.
  abbrev pub HasCourseRoles : CourseRoles → Type 0
  HasCourseRoles m =
      (id : Uuid) × (phase_id core c ≡ some id)
      × (send_course_phase_role_mapping_request core c.authorization id ≡ ok m)

  -- Core took the caller for a student of the course of that phase.
  abbrev pub HasParticipation : Participation → Type 0
  HasParticipation p =
      (id : Uuid) × (phase_id core c ≡ some id)
      × (send_is_student_request core c.authorization id ≡ ok p)

  -- The ways to be admitted to a route that lists the roles `allowed`.
  pub data Granted (allowed : List Text) (u : TokenUser) : Type 0 where
    by_prompt_role :
        (r : Text)
        → (r ≡ prompt_admin) ⊎ (r ≡ prompt_lecturer)
        → contains allowed r ≡ true
        → has_role u.roles r ≡ true
        → Granted allowed u
    as_lecturer :
        (m : CourseRoles)
        → HasCourseRoles m
        → contains allowed course_lecturer ≡ true
        → has_role u.roles m.course_lecturer_role ≡ true
        → Granted allowed u
    as_editor :
        (m : CourseRoles)
        → HasCourseRoles m
        → contains allowed course_editor ≡ true
        → has_role u.roles m.course_editor_role ≡ true
        → Granted allowed u
    in_group :
        (m : CourseRoles)
        → HasCourseRoles m
        → (r : Text) → contains allowed r ≡ true
        → is_custom_role r ≡ true
        → m.custom_role_prefix ≢ []
        → has_role u.roles (m.custom_role_prefix ++ r) ≡ true
        → Granted allowed u
    as_student :
        (p : Participation)
        → contains allowed course_student ≡ true
        → (NeedsCourseRoles allowed → (m : CourseRoles) × HasCourseRoles m)
        → HasParticipation p
        → p.is_student_of_course_phase ≡ true
        → Granted allowed u
