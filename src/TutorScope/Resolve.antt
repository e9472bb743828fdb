-- ===== src/TutorScope/Resolve.antt =====
-- What the resolver over the table of tutors finds (tutorscope/resolver.go).
use prompt_sdk.Prelude.{
  ◌≡◌, ◌≢◌, refl, ◌↔◌, ◌⊎◌, inl, inr, true, false, ◌&&◌, Option, none, some, List, [], ◌∷◌, Text,
  text_eq_iff, is_empty, ◌==◌, ok, err, Bool-cases, Option-cases, arith, Unicode, Any, here, there,
  Bool,
}
use prompt_sdk.Identity.{Uuid}
use prompt_sdk.TutorScope.{
  normalize, no_rows, TutorRow, login_matches, select_teams, phase_has_tutors, answer, resolution,
  login_param, resolve_tutor_team,
}

-- A row of the phase with this login, and this team.
abbrev pub IsTutorRow : Uuid → Text → Uuid → TutorRow → Type 0
IsTutorRow phase login team row =
    (row.course_phase_id ≡ phase) × (row.university_login ≡ some login) × (row.team_id ≡ some team)

row_login :
    (row : TutorRow) (login : Text)
    → login_matches row.university_login (some login) ≡ true
    → row.university_login ≡ some login
unfolding login_matches
row_login row login h = elim (Option-cases row.university_login) [
  | inl e ↦ absurd (ground arith)
  | inr (stored, e) ↦ ground (arith, text_eq_iff stored login)
]

select_teams-Any :
    (rows : List TutorRow) (phase : Uuid) (login : Text) (team : Uuid)
    → (more : List (Option Uuid)) → select_teams rows phase (some login) ≡ some team ∷ more
    → Any (IsTutorRow phase login team) rows
unfolding select_teams login_matches
select_teams-Any [] phase login team more h = cc
select_teams-Any (row ∷ rows) phase login team more h =
    elim (Bool-cases
      (row.course_phase_id == phase && login_matches row.university_login (some login))) [
        | inl e ↦ here (ground arith, row_login row login (ground arith), ground arith)
        | inr e ↦ there (select_teams-Any rows phase login team more (ground arith))
      ]

select_teams-empty : (rows : List TutorRow) (phase : Uuid) → select_teams rows phase none ≡ []
unfolding select_teams login_matches
select_teams-empty [] phase = refl
select_teams-empty (row ∷ rows) phase = ground (arith, select_teams-empty rows phase)

select_teams_of_no_tutors :
    (rows : List TutorRow) (phase : Uuid) (login : Option Text)
    → phase_has_tutors rows phase ≡ false
    → select_teams rows phase login ≡ []
unfolding select_teams phase_has_tutors
select_teams_of_no_tutors [] phase login h = refl
select_teams_of_no_tutors (row ∷ rows) phase login h =
    ground (arith, select_teams_of_no_tutors rows phase login)

answer-ok :
    (teams : List (Option Uuid)) (has : Bool) (team : Uuid)
    → answer teams has ≡ ok team
    → (more : List (Option Uuid)) × (teams ≡ some team ∷ more)
unfolding answer resolution
answer-ok [] has team h = absurd (ground arith)
answer-ok (some t ∷ []) has team h = ([], ground arith)
answer-ok (none ∷ []) has team h = absurd (ground arith)
answer-ok (t ∷ s ∷ more) has team h = cc

answer-no_rows :
    (teams : List (Option Uuid)) (has : Bool) → answer teams has ≡ err no_rows → has ≡ false
unfolding answer resolution
answer-no_rows [] has h = ground arith
answer-no_rows (some t ∷ []) has h = cc
answer-no_rows (none ∷ []) has h = ground arith
answer-no_rows (t ∷ s ∷ more) has h = cc

answer_nil : answer [] false ≡ err no_rows
unfolding answer resolution
answer_nil = refl

no_team : (has : Bool) (team : Uuid) → answer [] has ≢ ok team
unfolding answer resolution
no_team true team = λ h. cc
no_team false team = λ h. cc

text_cases : (t : Text) → (is_empty t ≡ true) ⊎ (t ≢ [])
text_cases [] = inl refl
text_cases (c ∷ t) = inr (ground arith)

module _ (u : Unicode) (rows : List TutorRow) (phase : Uuid) where
  -- A team is found only for a login that is not empty once normalized, at a row of the course
  -- phase with that login: an empty login never matches a row, not even one that stores the
  -- empty text.
  pub resolve_tutor_team-Any :
      (fails : Bool) (login : Text) (team : Uuid)
      → resolve_tutor_team u rows fails phase login ≡ ok team
      → (normalize u login ≢ []) × Any (IsTutorRow phase (normalize u login) team) rows
  unfolding resolve_tutor_team
  resolve_tutor_team-Any true login team h = cc
  resolve_tutor_team-Any false login team h = elim (text_cases (normalize u login)) [
    | inl e ↦
        absurd (
          ground (arith, select_teams-empty rows phase, no_team (phase_has_tutors rows phase) team))
    | inr filled ↦ (
      filled,
      let (more, f) =
            answer-ok (select_teams rows phase (some (normalize u login)))
              (phase_has_tutors rows phase) team (ground arith) in
          select_teams-Any rows phase (normalize u login) team more f,
    )
  ]

  -- The answer "no tutors" is given exactly for a phase with no row at all, and "not a tutor"
  -- only for a phase with rows: the first lets an editor read everything, so it is never
  -- given where tutors are registered.
  pub resolve_tutor_team-no_rows :
      (login : Text)
      → (resolve_tutor_team u rows false phase login ≡ err no_rows)
        ↔ (phase_has_tutors rows phase ≡ false)
  unfolding resolve_tutor_team
  resolve_tutor_team-no_rows login = (
    answer-no_rows (select_teams rows phase (login_param u login)) (phase_has_tutors rows phase),
    λ e. ground (arith, select_teams_of_no_tutors rows phase (login_param u login) e, answer_nil),
  )
