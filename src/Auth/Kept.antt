-- ===== src/Auth/Kept.antt =====
-- What the authorization middleware of authMiddleware.go leaves alone.
use prompt_sdk.Prelude.{
  ℕ, ◌≡◌, refl, inl, inr, Bool, true, false, ◌&&◌, ◌||◌, some, List, Text, contains, Result, ok,
  err, Option-cases, arith, if◌then◌else◌,
}
use prompt_sdk.Identity.{
  TokenUser, CourseRoles, Participation, prompt_admin, prompt_lecturer, course_lecturer,
  course_editor, course_student,
}
use prompt_sdk.Gin.{Context, set, abort}
use prompt_sdk.CoreRequests.{CoreService, CoreError, not_student_of_course}
use prompt_sdk.Auth.{
  build_allowed_roles_set, check_direct_role, only_contains_admin_and_lecturer,
  requires_lecturer_or_custom, student_verdict, student_part, course_verdict, role_verdict,
  authorize, matches_custom_role,
}
use prompt_sdk.Memberships.{
  get_token_user, phase_id, role_error_status, store_course_roles, course_roles_answer,
  get_lecturer_and_editor_role, clear_student, store_student, student_answer,
  is_student_of_course_phase_middleware,
}

-- The identity that the token gave: roles, identifiers and names.
pub record SameIdentity (u v : TokenUser) : Type 0 where
  pub roles : v.roles ≡ u.roles
  pub id : v.id ≡ u.id
  pub email : v.email ≡ u.email
  pub matriculation_number : v.matriculation_number ≡ u.matriculation_number
  pub university_login : v.university_login ≡ u.university_login
  pub first_name : v.first_name ≡ u.first_name
  pub last_name : v.last_name ≡ u.last_name

-- The token user of `d` has the identity of `u`.
pub record Carries (u : TokenUser) (d : Context) : Type 0 where
  pub carried : TokenUser
  pub present : get_token_user d ≡ some carried
  pub same : SameIdentity u carried

Carries-of :
    (u v : TokenUser) (d : Context) → get_token_user d ≡ some v → SameIdentity u v → Carries u d
Carries-of u v d e s = record { carried = v; present = e; same = s }

SameIdentity-refl : (u : TokenUser) → SameIdentity u u
SameIdentity-refl u = ground arith

module _ (core : CoreService) (u : TokenUser) where
  Carries-abort : (d : Context) (n : ℕ) → Carries u d → Carries u (abort d n)
  unfolding abort get_token_user
  Carries-abort d n h = record { carried = h.carried; present = h.present; same = h.same }

  Carries-store_course_roles :
      (m : CourseRoles) (v : TokenUser) (d : Context)
      → SameIdentity u v
      → Carries u (store_course_roles core m v d)
  unfolding store_course_roles get_token_user
  Carries-store_course_roles m v d s = record { carried = _; present = refl; same = ground arith }

  Carries-course_roles_answer :
      (d : Context) (r : Result CoreError CourseRoles)
      → Carries u d
      → Carries u (course_roles_answer core d r)
  unfolding course_roles_answer
  Carries-course_roles_answer d (err e) h = Carries-abort d (role_error_status e) h
  Carries-course_roles_answer d (ok m) h =
      rw (h.present, course_roles_answer) (Carries-store_course_roles m h.carried d h.same)

  Carries-lookup : (d : Context) → Carries u d → Carries u (get_lecturer_and_editor_role core d)
  unfolding get_lecturer_and_editor_role
  Carries-lookup d h = elim (Option-cases (phase_id core d)) [
    | inl missing ↦ rw (missing, get_lecturer_and_editor_role) (Carries-abort d 400 h)
    | inr (id, found) ↦ rw (found, get_lecturer_and_editor_role) (Carries-course_roles_answer d _ h)
  ]

  Carries-clear_student : (d : Context) → Carries u d → Carries u (clear_student core d)
  unfolding clear_student get_token_user set
  Carries-clear_student d h =
      Carries-of u
        (record h.carried { is_student_of_course = false; is_student_of_course_phase = false })
        (clear_student core d) (ground arith) (ground arith)

  Carries-store_student :
      (d : Context) (p : Participation) → Carries u d → Carries u (store_student core p d)
  unfolding store_student get_token_user set
  Carries-store_student d p h =
      Carries-of u
        (record h.carried {
          is_student_of_course = true;
          is_student_of_course_phase = p.is_student_of_course_phase;
          course_participation_id = p.course_participation_id;
        })
        (store_student core p d) (ground arith) (ground arith)

  Carries-student_answer :
      (d : Context) (r : Result CoreError Participation)
      → Carries u d
      → Carries u (student_answer core d r)
  unfolding student_answer
  Carries-student_answer d (ok p) h = Carries-store_student d p h
  Carries-student_answer d (err not_student_of_course) h = Carries-clear_student d h
  Carries-student_answer d (err _) h = Carries-abort d _ h

  Carries-student_lookup :
      (d : Context) → Carries u d → Carries u (is_student_of_course_phase_middleware core d)
  unfolding is_student_of_course_phase_middleware
  Carries-student_lookup d h = elim (Option-cases (phase_id core d)) [
    | inl missing ↦ rw (missing, is_student_of_course_phase_middleware) (Carries-abort d 400 h)
    | inr (id, found) ↦
        rw (found, is_student_of_course_phase_middleware) (Carries-student_answer d _ h)
  ]

  Carries-if :
      (b : Bool) (d e : Context) → Carries u d → Carries u e → Carries u (if b then d else e)
  Carries-if true d e h k = h
  Carries-if false d e h k = k

  Carries-student_verdict : (d : Context) → Carries u d → Carries u (student_verdict core d)
  unfolding student_verdict
  Carries-student_verdict d h =
      rw (h.present, student_verdict)
        (Carries-if d.aborted d _ h
          (Carries-if h.carried.is_student_of_course_phase d _ h (Carries-abort d 403 h)))

  Carries-student_part :
      (s : List Text) (d : Context) → Carries u d → Carries u (student_part core s d)
  unfolding student_part
  Carries-student_part s d h =
      Carries-if (contains s course_student) _ _
        (Carries-student_verdict _ (Carries-student_lookup d h)) (Carries-abort d 403 h)

  Carries-course_verdict :
      (s allowed : List Text) (d : Context)
      → Carries u d
      → Carries u (course_verdict core s allowed d)
  unfolding course_verdict
  Carries-course_verdict s allowed d h =
      rw (h.present, course_verdict)
        (Carries-if d.aborted d _ h (
          Carries-if (contains s course_lecturer && h.carried.is_lecturer) d _ h (
            Carries-if (contains s course_editor && h.carried.is_editor) d _ h (
              Carries-if (matches_custom_role h.carried.custom_role_prefix allowed h.carried.roles)
                d _ h (Carries-student_part s d h)))))

  -- Whatever the authorization middleware decides and whatever core answers, the token user keeps
  -- the roles, identifiers and names that the token gave.
  pub authorize-Carries :
      (allowed : List Text) (c : Context)
      → get_token_user c ≡ some u
      → Carries u (authorize core allowed c)
  unfolding authorize role_verdict
  authorize-Carries allowed c known =
      let h = Carries-of u u c known (SameIdentity-refl u) in
      let s = build_allowed_roles_set allowed in
      rw (known, authorize)
        (Carries-if
          (check_direct_role prompt_admin s u.roles || check_direct_role prompt_lecturer s u.roles)
          c _ h
          (Carries-if (only_contains_admin_and_lecturer s) _ _ (Carries-abort c 403 h) (
            Carries-if (requires_lecturer_or_custom s allowed) _ _
              (Carries-course_verdict s allowed _ (Carries-lookup c h))
              (Carries-student_part s c h))))
