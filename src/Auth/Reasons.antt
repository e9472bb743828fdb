-- ===== src/Auth/Reasons.antt =====
-- Why authMiddleware.go refuses a signed-in caller, and the reasons of its last part, on students.
use prompt_sdk.Prelude.{
  sym, ok, ℕ, ◌≡◌, ◌≢◌, refl, ◌∙◌, Bool, ◌⊎◌, inl, inr, true, false, none, some, List, Text,
  contains, err, Option-cases, Result-cases, Bool-cases, arith, if◌then◌else◌,
}
use prompt_sdk.Identity.{Uuid, TokenUser, course_student, CourseRoles, Participation}
use prompt_sdk.Gin.{Context, set, abort}
use prompt_sdk.CoreRequests.{
  CoreService, CoreError, unauthenticated, not_student_of_course, send_is_student_request,
  send_course_phase_role_mapping_request,
}
use prompt_sdk.Auth.{build_allowed_roles_set, student_verdict, student_part}
use prompt_sdk.Memberships.{
  get_token_user, phase_id, role_error_status, student_answer,
  is_student_of_course_phase_middleware,
}
use prompt_sdk.Auth.RoleSets.{NeedsCourseRoles, contains-build_allowed_roles_set}
use prompt_sdk.Auth.Granted.{HasCourseRoles}

-- The status of a failed lookup.
abbrev pub LookupStatus : CoreError → ℕ → Type 0
LookupStatus e status =
    ((e ≡ unauthenticated) × (status ≡ 401)) ⊎ ((e ≢ unauthenticated) × (status ≡ 500))

pub role_error-LookupStatus : (e : CoreError) → LookupStatus e (role_error_status e)
unfolding role_error_status
role_error-LookupStatus e = ground arith

module _ (core : CoreService) (c : Context) (allowed : List Text) where
  -- If the route lists a role of the course, core resolved the roles of the phase.
  abbrev pub RolesAnswered : Type 0
  RolesAnswered = NeedsCourseRoles allowed → (m : CourseRoles) × HasCourseRoles core c m

  -- If the route lists students, core knew that the caller is none of the phase.
  abbrev pub IsNoStudent : Type 0
  IsNoStudent =
      contains allowed course_student ≡ true
      → (id : Uuid) × (phase_id core c ≡ some id)
        × ((send_is_student_request core c.authorization id ≡ err not_student_of_course)
            ⊎ ((p : Participation) × (send_is_student_request core c.authorization id ≡ ok p)
                × (p.is_student_of_course_phase ≡ false)))

  -- Why a caller that is signed in was refused, with the status of the answer.
  pub data Refused (status : ℕ) : Type 0 where
    no_phase : phase_id core c ≡ none → status ≡ 400 → Refused status
    not_allowed : RolesAnswered → IsNoStudent → status ≡ 403 → Refused status
    roles_unknown :
        (id : Uuid) (e : CoreError)
        → phase_id core c ≡ some id
        → send_course_phase_role_mapping_request core c.authorization id ≡ err e
        → LookupStatus e status
        → Refused status
    membership_unknown :
        (id : Uuid) (e : CoreError)
        → phase_id core c ≡ some id
        → send_is_student_request core c.authorization id ≡ err e
        → e ≢ not_student_of_course
        → LookupStatus e status
        → Refused status

  -- A context that goes on, or that says why not.
  abbrev pub Explained : Context → Type 0
  Explained d = (d.aborted ≡ false) ⊎ Refused d.status

  pub Explained-if :
      (b : Bool) (d e : Context) → Explained d → Explained e → Explained (if b then d else e)
  Explained-if true d e h k = h
  Explained-if false d e h k = k

  pub Explained-by :
      (b : Bool) (d e : Context)
      → (b ≡ true → Explained d)
      → (b ≡ false → Explained e)
      → Explained (if b then d else e)
  Explained-by true d e h k = h refl
  Explained-by false d e h k = k refl

  module _ (d : Context) (u : TokenUser) (open_ : d.aborted ≡ false)
      (answered : RolesAnswered) where
    explains_membership :
        (known : get_token_user d ≡ some u) (id : Uuid) (e : CoreError)
        → phase_id core c ≡ some id
        → send_is_student_request core c.authorization id ≡ err e
        → Explained (student_verdict core (student_answer core d (err e)))
    unfolding student_verdict student_answer abort get_token_user set role_error_status
    explains_membership known id not_student_of_course found failed =
        inr (not_allowed answered (λ listed. (id, found, inl failed)) (ground arith))
    explains_membership known id unauthenticated found failed = inr (
        membership_unknown id unauthenticated found failed (ground arith)
          (inl (refl, ground arith)))
    explains_membership known id e found failed =
        inr (membership_unknown id e found failed (ground arith) (inr (ground arith, ground arith)))

    pub explains_student :
        (known : get_token_user d ≡ some u)
        → phase_id core d ≡ phase_id core c
        → d.authorization ≡ c.authorization
        → Explained (student_part core (build_allowed_roles_set allowed) d)
    unfolding student_part is_student_of_course_phase_middleware
    explains_student known same_phase same_header =
        let s = build_allowed_roles_set allowed in
        elim (Bool-cases (contains s course_student)) [
          | inl listed ↦ elim (Option-cases (phase_id core c)) [
            | inl missing ↦ inr (unfold student_verdict abort in no_phase missing (ground arith))
            | inr (id, found) ↦
                elim (Result-cases (send_is_student_request core c.authorization id)) [
                  | inl (p, sent) ↦ elim (Bool-cases p.is_student_of_course_phase) [
                    | inl member ↦
                        unfold student_verdict student_answer abort get_token_user set in
                        inl (ground arith)
                    | inr other ↦
                        unfold student_verdict student_answer abort get_token_user set in
                        inr (
                          not_allowed answered (λ listed. (id, found, inr (p, sent, other)))
                            (ground arith))
                  ]
                  | inr (e, failed) ↦
                      let same : student_part core s d
                          ≡ student_verdict core (student_answer core d (err e)) =
                        ground arith in
                      rw same (explains_membership known id e found failed)
                ]
          ]
          | inr unlisted ↦
              let away : contains allowed course_student ≡ false =
                sym (contains-build_allowed_roles_set allowed course_student) ∙ unlisted in
              unfold abort in
              inr (not_allowed answered (λ listed. absurd (ground arith)) (ground arith))
        ]
