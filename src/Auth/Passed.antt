-- ===== src/Auth/Passed.antt =====
-- Whom authMiddleware.go lets pass: the rule of `Granted` behind a request that passed.
use prompt_sdk.Prelude.{
  ◌≡◌, refl, sym, ◌∙◌, inl, inr, true, false, ◌&&◌, ◌||◌, some, List, Text, contains, Bool-cases,
  arith, if◌then◌else◌,
}
use prompt_sdk.Identity.{
  TokenUser, CourseRoles, has_role, prompt_admin, prompt_lecturer, course_lecturer, course_editor,
  course_student,
}
use prompt_sdk.Gin.{Context, abort}
use prompt_sdk.CoreRequests.{CoreService}
use prompt_sdk.Auth.{
  build_allowed_roles_set, check_direct_role, matches_custom_role, requires_lecturer_or_custom,
  student_part, course_verdict, authorize,
}
use prompt_sdk.Memberships.{get_token_user, phase_id, store_course_roles}
use prompt_sdk.Auth.Granted.{
  HasCourseRoles, Granted, by_prompt_role, as_lecturer, as_editor, in_group, as_student,
}
use prompt_sdk.Auth.RoleSets.{
  contains-build_allowed_roles_set, any_custom_role_sound, requires_complete, NeedsCourseRoles,
}
use prompt_sdk.Auth.Lookups.{
  with_course_roles, get_token_user-store_course_roles, phase_id-store_course_roles,
  aborted-store_course_roles, authorization-store_course_roles, get_lecturer_and_editor_role-cases,
  student_part_sound,
}

module _ (core : CoreService) (allowed : List Text) (c : Context) (u : TokenUser) where
  admits_student :
      (d : Context) (v : TokenUser)
      → get_token_user d ≡ some v
      → phase_id core d ≡ phase_id core c
      → d.authorization ≡ c.authorization
      → (NeedsCourseRoles allowed → (m : CourseRoles) × HasCourseRoles core c m)
      → (student_part core (build_allowed_roles_set allowed) d).aborted ≡ false
      → Granted core c allowed u
  admits_student d v known same_phase same_header needs h =
      let (p, listed, (id, found, sent), in_phase) =
        student_part_sound core d v known (build_allowed_roles_set allowed) h in
      as_student p (sym (contains-build_allowed_roles_set allowed course_student) ∙ listed) needs
        (id, sym same_phase ∙ found, rw same_header at sent) in_phase

  -- The verdict on the roles that core resolved.
  pub verdict_after_lookup :
      (m : CourseRoles)
      → c.aborted ≡ false
      → course_verdict core
          (build_allowed_roles_set allowed)
          allowed
          (store_course_roles core m u c)
        ≡ (if contains allowed course_lecturer && has_role u.roles m.course_lecturer_role
            then store_course_roles core m u c
            else if contains allowed course_editor && has_role u.roles m.course_editor_role
            then store_course_roles core m u c
            else if matches_custom_role m.custom_role_prefix allowed u.roles
            then store_course_roles core m u c
            else student_part core
                (build_allowed_roles_set allowed)
                (store_course_roles core m u c))
  unfolding course_verdict
  verdict_after_lookup m open_ = ground (
    arith,
    aborted-store_course_roles core c m u,
    get_token_user-store_course_roles core c m u,
    contains-build_allowed_roles_set allowed course_lecturer,
    contains-build_allowed_roles_set allowed course_editor,
  )

  admits_group :
      (m : CourseRoles)
      → HasCourseRoles core c m
      → matches_custom_role m.custom_role_prefix allowed u.roles ≡ true
      → Granted core c allowed u
  unfolding matches_custom_role
  admits_group m has h =
      let (r, listed, custom, held) =
        any_custom_role_sound m.custom_role_prefix allowed u.roles (ground arith) in
      in_group m has r listed custom (ground arith) held

  admits_after_lookup :
      (m : CourseRoles)
      → HasCourseRoles core c m
      → c.aborted ≡ false
      → (course_verdict core
          (build_allowed_roles_set allowed)
          allowed
          (store_course_roles core m u c)).aborted
        ≡ false
      → Granted core c allowed u
  admits_after_lookup m has open_ h =
      elim (Bool-cases
        (contains allowed course_lecturer && has_role u.roles m.course_lecturer_role)) [
          | inl e ↦ as_lecturer m has (ground arith) (ground arith)
          | inr e ↦
              elim (Bool-cases
                (contains allowed course_editor && has_role u.roles m.course_editor_role)) [
                  | inl f ↦ as_editor m has (ground arith) (ground arith)
                  | inr f ↦
                      elim (Bool-cases (matches_custom_role m.custom_role_prefix allowed u.roles)) [
                        | inl g ↦ admits_group m has g
                        | inr g ↦
                            admits_student (store_course_roles core m u c) (with_course_roles m u)
                              (get_token_user-store_course_roles core c m u)
                              (phase_id-store_course_roles core c m u)
                              (authorization-store_course_roles core c m u) (λ _. (m, has))
                              (ground (arith, verdict_after_lookup m open_))
                      ]
                ]
        ]

  platform_direct :
      check_direct_role prompt_admin (build_allowed_roles_set allowed) u.roles
          || check_direct_role prompt_lecturer (build_allowed_roles_set allowed) u.roles
        ≡ true
      → Granted core c allowed u
  unfolding check_direct_role
  platform_direct h =
      elim (Bool-cases (
        contains (build_allowed_roles_set allowed) prompt_admin && has_role u.roles prompt_admin)) [
          | inl e ↦
              by_prompt_role prompt_admin (inl refl)
                (ground (arith, contains-build_allowed_roles_set allowed prompt_admin))
                (ground arith)
          | inr e ↦
              by_prompt_role prompt_lecturer (inr refl)
                (ground (arith, contains-build_allowed_roles_set allowed prompt_lecturer))
                (ground arith)
        ]

  pub authorize_sound :
      c.aborted ≡ false
      → get_token_user c ≡ some u
      → (authorize core allowed c).aborted ≡ false
      → Granted core c allowed u
  unfolding authorize abort
  authorize_sound open_ known h =
      let s = build_allowed_roles_set allowed in
      elim (Bool-cases
        (check_direct_role prompt_admin s u.roles || check_direct_role prompt_lecturer s u.roles)) [
          | inl direct ↦ platform_direct direct
          | inr no_platform ↦ elim (Bool-cases (requires_lecturer_or_custom s allowed)) [
            | inl needed ↦ elim (get_lecturer_and_editor_role-cases core c u known) [
              | inl stopped ↦ absurd (unfold course_verdict in ground arith)
              | inr (m, has, same) ↦ admits_after_lookup m has open_ (ground arith)
            ]
            | inr plain ↦
                admits_student c u known refl refl (λ n. cc (requires_complete allowed n))
                  (ground arith)
          ]
        ]
