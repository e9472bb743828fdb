-- ===== src/Auth/Refusals.antt =====
-- The answers of authMiddleware.go to a caller that it does not let pass, and the routes that
-- never ask core.
use prompt_sdk.Prelude.{
  sym, subst, ◌≡◌, refl, ◌∙◌, ◌&&◌, ◌⊎◌, inl, inr, true, false, ◌||◌, none, some, List, Text,
  contains, err, Option-cases, Result-cases, Bool-cases, arith,
}
use prompt_sdk.Identity.{
  Uuid, TokenUser, prompt_admin, prompt_lecturer, course_lecturer, course_editor, course_student,
  CourseRoles,
}
use prompt_sdk.Gin.{Context, abort}
use prompt_sdk.CoreRequests.{CoreService, CoreError, send_course_phase_role_mapping_request}
use prompt_sdk.Auth.{
  build_allowed_roles_set, check_direct_role, only_contains_admin_and_lecturer,
  requires_lecturer_or_custom, course_verdict, role_verdict, authorize, matches_custom_role,
}
use prompt_sdk.Memberships.{
  get_token_user, phase_id, role_error_status, store_course_roles, get_lecturer_and_editor_role,
}
use prompt_sdk.Auth.RoleSets.{
  requires_complete, contains-build_allowed_roles_set, only_contains-true, IsPlatform-names,
}
use prompt_sdk.Auth.Granted.{Granted, HasCourseRoles}
use prompt_sdk.Auth.Decision.{authorize-Granted_iff}
use prompt_sdk.Auth.Lookups.{
  get_token_user-store_course_roles, phase_id-store_course_roles, aborted-store_course_roles,
  authorization-store_course_roles, get_lecturer_and_editor_role_lem, with_course_roles,
}
use prompt_sdk.Auth.Reasons.{
  role_error-LookupStatus, LookupStatus, Refused, no_phase, not_allowed, roles_unknown, Explained,
  Explained-if, Explained-by, explains_student,
}

module _ (core : CoreService) (c : Context) (allowed : List Text) where
  module _ (u : TokenUser) (open_ : c.aborted ≡ false) (known : get_token_user c ≡ some u) where
    explains_lookup_failure :
        (id : Uuid) (e : CoreError)
        → phase_id core c ≡ some id
        → send_course_phase_role_mapping_request core c.authorization id ≡ err e
        → Explained core c allowed (
            course_verdict core
              (build_allowed_roles_set allowed)
              allowed
              (get_lecturer_and_editor_role core c))
    unfolding course_verdict get_lecturer_and_editor_role abort
    explains_lookup_failure id e found failed =
        let same : (course_verdict core (build_allowed_roles_set allowed) allowed
              (get_lecturer_and_editor_role core c)).status
            ≡ role_error_status e =
          ground arith in
        inr (
          roles_unknown id e found failed
            (subst (LookupStatus e) (sym same) (role_error-LookupStatus e)))

    explains_verdict :
        (m : CourseRoles)
        → HasCourseRoles core c m
        → Explained core c allowed (
            course_verdict core
              (build_allowed_roles_set allowed)
              allowed
              (store_course_roles core m u c))
    unfolding course_verdict
    explains_verdict m has =
        let s = build_allowed_roles_set allowed in
        let d = store_course_roles core m u c in
        let v = with_course_roles m u in
        let going : d.aborted ≡ false = aborted-store_course_roles core c m u ∙ open_ in
        rw (get_token_user-store_course_roles core c m u, course_verdict)
          (Explained-if core c allowed d.aborted d _ (inl going) (
            Explained-if core c allowed (contains s course_lecturer && v.is_lecturer) d _
              (inl going)
              (Explained-if core c allowed (contains s course_editor && v.is_editor) d _ (inl going)
                (Explained-if core c allowed
                  (matches_custom_role v.custom_role_prefix allowed v.roles) d _ (inl going)
                  (explains_student core c allowed d v going (λ needs. (m, has))
                    (get_token_user-store_course_roles core c m u)
                    (phase_id-store_course_roles core c m u)
                    (authorization-store_course_roles core c m u))))))

    explains_course_part : Explained core c allowed (
        course_verdict core
          (build_allowed_roles_set allowed)
          allowed
          (get_lecturer_and_editor_role core c))
    explains_course_part = elim (Option-cases (phase_id core c)) [
      | inl missing ↦
          unfold course_verdict get_lecturer_and_editor_role abort in
          inr (no_phase missing (ground arith))
      | inr (id, found) ↦
          elim (Result-cases (send_course_phase_role_mapping_request core c.authorization id)) [
            | inl (m, sent) ↦
                rw (get_lecturer_and_editor_role_lem core c u known m (id, found, sent))
                  (explains_verdict m (id, found, sent))
            | inr (e, failed) ↦ explains_lookup_failure id e found failed
          ]
    ]

    explains_platform_only :
        only_contains_admin_and_lecturer (build_allowed_roles_set allowed) ≡ true
        → Explained core c allowed (abort c 403)
    unfolding abort
    explains_platform_only h =
        let s = build_allowed_roles_set allowed in
        inr (
          not_allowed
            (λ needs.
              elim (only_contains-true s needs.0 h
                (contains-build_allowed_roles_set allowed needs.0 ∙ needs.1)) [
                  | inl e ↦ absurd (needs.2 e)
                  | inr e ↦ absurd (needs.3 e)
                ])
            (λ listed. absurd (
              IsPlatform-names.2 (
                only_contains-true s course_student h
                  (contains-build_allowed_roles_set allowed course_student ∙ listed))))
            refl)

    explains : Explained core c allowed (authorize core allowed c)
    unfolding authorize role_verdict
    explains =
        let s = build_allowed_roles_set allowed in
        rw (known, authorize)
          (Explained-if core c allowed
            (check_direct_role prompt_admin s u.roles
              || check_direct_role prompt_lecturer s u.roles)
            c _ (inl open_)
            (Explained-by core c allowed (only_contains_admin_and_lecturer s) (abort c 403) _
              explains_platform_only
              (λ more.
                Explained-by core c allowed (requires_lecturer_or_custom s allowed) _ _
                  (λ needed. explains_course_part)
                  (λ free.
                    explains_student core c allowed c u open_
                      (λ needs. absurd (ground (arith, requires_complete allowed needs))) known refl
                      refl))))

    -- A signed-in caller whom the authorization middleware does not let pass is admitted by no
    -- rule, and gets: 400 if the path names no course phase; 401 where core answered a lookup with
    -- 401, and 500 where a lookup failed in any other way; and 403 only if core resolved the roles
    -- of the phase where the route lists roles of the course, and knew that the caller is no
    -- student of the phase where it lists students.
    pub authorize-Refused :
        ((authorize core allowed c).aborted ≡ false)
        ⊎ ((¬ Granted core c allowed u) × Refused core c allowed (authorize core allowed c).status)
    authorize-Refused = elim explains [
      | inl on ↦ inl on
      | inr why ↦ elim (Bool-cases (authorize core allowed c).aborted) [
        | inr on ↦ inl on
        | inl stopped ↦ inr (
          (λ g.
              absurd (
                ground (arith, stopped, (authorize-Granted_iff core allowed c u open_ known).1 g))),
          why,
        )
      ]
    ]

-- A caller without a token user is answered with 401, whatever the route allows.
pub authorize_unknown :
    (core : CoreService) (allowed : List Text) (c : Context)
    → get_token_user c ≡ none
    → authorize core allowed c ≡ abort c 401
unfolding authorize
authorize_unknown core allowed c missing = rw (missing, authorize)
