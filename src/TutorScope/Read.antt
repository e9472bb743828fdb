-- ===== src/TutorScope/Read.antt =====
-- Which reads the scoping middleware leaves open, over the table of tutors
-- (keycloakTokenVerifier/tutorScopingMiddleware.go with tutorscope/resolver.go).
use prompt_sdk.Prelude.{
  ◌≡◌, ◌≢◌, ◌↔◌, ◌∙◌, ap, inl, inr, refl, true, false, Bool, Option, none, some, List, Text, codes,
  ◌==◌, err, Result-cases, Option-cases, Bool-cases, arith, Unicode,
}
use prompt_sdk.Identity.{Uuid, nil_uuid, TokenUser}
use prompt_sdk.Gin.{Context, set, abort, param}
use prompt_sdk.Memberships.{get_token_user}
use prompt_sdk.TutorScope.{
  Resolver, ResolveError, not_a_tutor, no_rows, query_failed, TutorRow, normalize, phase_has_tutors,
  resolve_tutor_team, scope, get_tutor_team_id,
}
use prompt_sdk.TutorScope.Resolve.{resolve_tutor_team-no_rows}

module _ (unicode : Unicode) (parse_uuid : Text → Option Uuid) where
  module _ (resolver : Resolver) (c : Context) (u : TokenUser) (known : get_token_user c ≡ some u)
      (editor : u.is_editor ≡ true) (no_lecturer : u.is_lecturer ≡ false)
      (fresh : get_tutor_team_id c ≡ none) (running : c.aborted ≡ false) where
    -- The request goes on and carries no team.
    abbrev IsUnscoped : Type 0
    IsUnscoped =
        ((scope unicode parse_uuid resolver c).aborted ≡ false)
        × (get_tutor_team_id (scope unicode parse_uuid resolver c) ≡ none)

    abbrev FindsNoTutors : Type 0
    FindsNoTutors =
        (phase : Uuid) × (parse_uuid (param c (codes "coursePhaseID")) ≡ some phase)
        × (phase ≢ nil_uuid)
        × (resolver phase (normalize unicode u.university_login) ≡ err no_rows)

    refused :
        (phase : Uuid) (fault : ResolveError)
        → parse_uuid (param c (codes "coursePhaseID")) ≡ some phase
        → phase == nil_uuid ≡ false
        → resolver phase (normalize unicode u.university_login) ≡ err fault
        → IsUnscoped
        → fault ≡ no_rows
    unfolding scope set get_token_user get_tutor_team_id param abort
    refused phase no_rows e n f h = refl
    refused phase not_a_tutor e n f h = absurd (ground (arith, h.0))
    refused phase query_failed e n f h = absurd (ground (arith, h.0))

    sound : IsUnscoped → FindsNoTutors
    unfolding scope set get_token_user get_tutor_team_id param abort
    sound h = elim (Option-cases (parse_uuid (param c (codes "coursePhaseID")))) [
      | inl e ↦ absurd (ground (arith, h.0))
      | inr (phase, e) ↦ elim (Bool-cases (phase == nil_uuid)) [
        | inl n ↦ absurd (ground (arith, h.0))
        | inr n ↦ elim (Result-cases (resolver phase (normalize unicode u.university_login))) [
          | inl (found, f) ↦ absurd (ground (arith, h.1))
          | inr (fault, f) ↦ (phase, e, ground arith, f ∙ ap err (refused phase fault e n f h))
        ]
      ]
    ]

    complete : FindsNoTutors → IsUnscoped
    unfolding scope set get_token_user get_tutor_team_id param
    complete (phase, e, real, f) = (ground arith, ground arith)

  no_tutors_iff :
      (rows : List TutorRow) (fails : Bool) (phase : Uuid) (login : Text)
      → (resolve_tutor_team unicode rows fails phase login ≡ err no_rows)
        ↔ ((fails ≡ false) × (phase_has_tutors rows phase ≡ false))
  unfolding resolve_tutor_team
  no_tutors_iff rows true phase login = ((λ h. cc), λ h. cc)
  no_tutors_iff rows false phase login =
      let same = resolve_tutor_team-no_rows unicode rows phase login in
      ((λ h. (refl, same.0 h)), λ h. same.1 h.1)

  -- For an editor of the course who is no lecturer, on a request that was not aborted and carries
  -- no team, with the table of tutors: the request goes on without a team, which leaves reads
  -- unrestricted, exactly if its path names a course phase, the query does not fail, and no row
  -- of the table is of that phase.
  pub unscoped_iff :
      (rows : List TutorRow) (fails : Bool) (c : Context) (u : TokenUser)
      → get_token_user c ≡ some u
      → u.is_editor ≡ true
      → u.is_lecturer ≡ false
      → get_tutor_team_id c ≡ none
      → c.aborted ≡ false
      → (((scope unicode parse_uuid (resolve_tutor_team unicode rows fails) c).aborted ≡ false)
          × (get_tutor_team_id (scope unicode parse_uuid (resolve_tutor_team unicode rows fails) c)
              ≡ none))
        ↔ ((phase : Uuid) × (parse_uuid (param c (codes "coursePhaseID")) ≡ some phase)
            × (phase ≢ nil_uuid)
            × (fails ≡ false)
            × (phase_has_tutors rows phase ≡ false))
  unscoped_iff rows fails c u known editor no_lecturer fresh running =
      let table = resolve_tutor_team unicode rows fails in
      (
        (λ h.
            let (phase, e, real, f) = sound table c u known editor no_lecturer fresh running h in
            let g = (no_tutors_iff rows fails phase (normalize unicode u.university_login)).0 f in
            (phase, e, real, g.0, g.1)),
        λ k. complete table c u known editor no_lecturer fresh running (
          k.0,
          k.1,
          k.2,
          (no_tutors_iff rows fails k.0 (normalize unicode u.university_login)).1 (k.3, k.4),
        ),
      )
