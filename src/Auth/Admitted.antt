-- ===== src/Auth/Admitted.antt =====
-- The rules of `Granted` are enough for authMiddleware.go.
use prompt_sdk.Prelude.{
  ◌≡◌, ◌≢◌, ◌∙◌, inl, inr, true, false, some, List, [], ◌++◌, Text, contains, Bool-cases, arith,
}
use prompt_sdk.Identity.{
  TokenUser, CourseRoles, Participation, has_role, prompt_admin, prompt_lecturer, course_lecturer,
  course_editor, course_student,
}
use prompt_sdk.Gin.{Context}
use prompt_sdk.CoreRequests.{CoreService}
use prompt_sdk.Auth.{
  build_allowed_roles_set, check_direct_role, matches_custom_role, is_custom_role,
  only_contains_admin_and_lecturer, requires_lecturer_or_custom, course_verdict, authorize,
}
use prompt_sdk.Memberships.{get_token_user, store_course_roles}
use prompt_sdk.Auth.Granted.{
  HasCourseRoles, HasParticipation, Granted, by_prompt_role, as_lecturer, as_editor, in_group,
  as_student,
}
use prompt_sdk.Auth.RoleSets.{
  contains-build_allowed_roles_set, only_contains-true, any_custom_role_complete, requires_sound,
  requires_complete, NeedsCourseRoles, IsPlatform-names, is_custom_role-ne, IsPlatform,
  course_names,
}
use prompt_sdk.Auth.Lookups.{
  with_course_roles, get_token_user-store_course_roles, phase_id-store_course_roles,
  aborted-store_course_roles, authorization-store_course_roles, get_lecturer_and_editor_role_lem,
  student_part_complete,
}
use prompt_sdk.Auth.Passed.{verdict_after_lookup}

module _ (core : CoreService) (allowed : List Text) (c : Context) (u : TokenUser) where
  -- A list that needs the role lookup is not made of platform roles alone.
  not_only_platform :
      (r : Text)
      → contains allowed r ≡ true
      → ¬ IsPlatform r
      → only_contains_admin_and_lecturer (build_allowed_roles_set allowed) ≡ false
  not_only_platform r listed away =
      elim (Bool-cases (only_contains_admin_and_lecturer (build_allowed_roles_set allowed))) [
        | inl e ↦
            absurd (
              away (only_contains-true _ r e (contains-build_allowed_roles_set allowed r ∙ listed)))
        | inr e ↦ e
      ]

  admitted_by_lookup :
      (m : CourseRoles)
      → c.aborted ≡ false
      → get_token_user c ≡ some u
      → HasCourseRoles core c m
      → NeedsCourseRoles allowed
      → (course_verdict core
          (build_allowed_roles_set allowed)
          allowed
          (store_course_roles core m u c)).aborted
        ≡ false
      → (authorize core allowed c).aborted ≡ false
  unfolding authorize
  admitted_by_lookup m open_ known has (r, listed, p, q, s) h = ground (
    arith,
    requires_complete allowed (r, listed, p, q, s),
    not_only_platform r listed (λ x. elim x [ inl y ↦ p y | inr y ↦ q y ]),
    get_lecturer_and_editor_role_lem core c u known m has,
  )

  admitted_in_group :
      (m : CourseRoles) (r : Text)
      → c.aborted ≡ false
      → contains allowed r ≡ true
      → is_custom_role r ≡ true
      → m.custom_role_prefix ≢ []
      → has_role u.roles (m.custom_role_prefix ++ r) ≡ true
      → (course_verdict core
          (build_allowed_roles_set allowed)
          allowed
          (store_course_roles core m u c)).aborted
        ≡ false
  unfolding matches_custom_role
  admitted_in_group m r open_ listed custom some_prefix held = ground (
    arith,
    verdict_after_lookup core allowed c u m open_,
    aborted-store_course_roles core c m u,
    any_custom_role_complete m.custom_role_prefix allowed u.roles r listed custom held,
  )

  admitted_as_student :
      (m : CourseRoles) (p : Participation)
      → c.aborted ≡ false
      → contains allowed course_student ≡ true
      → HasParticipation core c p
      → p.is_student_of_course_phase ≡ true
      → (course_verdict core
          (build_allowed_roles_set allowed)
          allowed
          (store_course_roles core m u c)).aborted
        ≡ false
  admitted_as_student m p open_ listed (id, found, sent) in_phase = ground (
    arith,
    verdict_after_lookup core allowed c u m open_,
    aborted-store_course_roles core c m u,
    student_part_complete core (store_course_roles core m u c) (with_course_roles m u)
        (get_token_user-store_course_roles core c m u) (build_allowed_roles_set allowed) p
        (aborted-store_course_roles core c m u ∙ open_)
        (contains-build_allowed_roles_set allowed course_student ∙ listed)
        (
          id,
          phase_id-store_course_roles core c m u ∙ found,
          rw (authorization-store_course_roles core c m u) sent,
        )
        in_phase,
  )

  admitted_as_lone_student :
      (p : Participation)
      → c.aborted ≡ false
      → get_token_user c ≡ some u
      → contains allowed course_student ≡ true
      → HasParticipation core c p
      → p.is_student_of_course_phase ≡ true
      → requires_lecturer_or_custom (build_allowed_roles_set allowed) allowed ≡ false
      → (authorize core allowed c).aborted ≡ false
  unfolding authorize
  admitted_as_lone_student p open_ known listed has in_phase plain = ground (
    arith,
    not_only_platform course_student listed IsPlatform-names.2,
    student_part_complete core c u known (build_allowed_roles_set allowed) p open_
        (contains-build_allowed_roles_set allowed course_student ∙ listed) has in_phase,
  )

  pub authorize_complete :
      c.aborted ≡ false
      → get_token_user c ≡ some u
      → Granted core c allowed u
      → (authorize core allowed c).aborted ≡ false
  authorize_complete open_ known (by_prompt_role r which listed held) =
      unfold authorize check_direct_role in
      ground (
        arith,
        contains-build_allowed_roles_set allowed prompt_admin,
        contains-build_allowed_roles_set allowed prompt_lecturer,
      )
  authorize_complete open_ known (as_lecturer m has listed held) =
      admitted_by_lookup m open_ known has
        (
          course_lecturer,
          listed,
          λ e. IsPlatform-names.0 (inl e),
          λ e. IsPlatform-names.0 (inr e),
          course_names.0,
        )
        (ground (
          arith,
          verdict_after_lookup core allowed c u m open_,
          aborted-store_course_roles core c m u,
        ))
  authorize_complete open_ known (as_editor m has listed held) =
      admitted_by_lookup m open_ known has
        (
          course_editor,
          listed,
          λ e. IsPlatform-names.1 (inl e),
          λ e. IsPlatform-names.1 (inr e),
          course_names.1,
        )
        (ground (
          arith,
          verdict_after_lookup core allowed c u m open_,
          aborted-store_course_roles core c m u,
        ))
  authorize_complete open_ known (in_group m has r listed custom some_prefix held) =
      let (away, other) = is_custom_role-ne r custom in
      admitted_by_lookup m open_ known has (r, listed, λ e. away (inl e), λ e. away (inr e), other)
        (admitted_in_group m r open_ listed custom some_prefix held)
  authorize_complete open_ known (as_student p listed lookup has in_phase) =
      elim (Bool-cases (requires_lecturer_or_custom (build_allowed_roles_set allowed) allowed)) [
        | inl needed ↦
            let needs = requires_sound allowed needed in
            let (m, found) = lookup needs in
            admitted_by_lookup m open_ known found needs
              (admitted_as_student m p open_ listed has in_phase)
        | inr plain ↦ admitted_as_lone_student p open_ known listed has in_phase plain
      ]
