-- ===== src/TutorScope.antt =====
-- keycloakTokenVerifier/tutorScopingMiddleware.go, tutorscope/resolver.go, tutorscope/authorize.go
-- and internal/login/login.go: a tutor is held to one team.
-- The table of tutors is a list of its rows. What the two queries of the resolver's statement
-- return is written out from the statement; the connection to the database is the parameter
-- `fails`.
pub mod Construction
pub mod Read
pub mod Resolve
pub mod Write
use prompt_sdk.Prelude.{
  ℕ, Bool, true, false, not, ◌&&◌, ◌||◌, Option, none, some, List, [], ◌∷◌, Text, codes, text_eq,
  is_empty, ◌==◌, Result, ok, err, if◌then◌else◌, Unicode, to_lower, trim_space,
}
use prompt_sdk.Identity.{Uuid, nil_uuid, has_role, TokenUser, prompt_admin, prompt_lecturer}
use prompt_sdk.Gin.{Key, Value, Context, set, param, abort, Handler, in_front}
use prompt_sdk.Memberships.{get_token_user}

-- `login.Normalize`
unfoldable pub normalize : Unicode → Text → Text
normalize u university_login = trim_space u (to_lower u university_login)

-- `ErrNotATutor`, `pgx.ErrNoRows`, and any other error of a resolver
pub data ResolveError : Type 0 where
  not_a_tutor no_rows query_failed : ResolveError

abbrev pub Resolver : Type 0
Resolver = Uuid → Text → Result ResolveError Uuid

-- A row of the table of tutors; a column may hold NULL.
pub record TutorRow : Type 0 where
  pub course_phase_id : Uuid
  pub university_login : Option Text
  pub team_id : Option Uuid

-- `university_login = $2`: NULL on either side is no match
unfoldable pub login_matches : Option Text → Option Text → Bool
login_matches (some a) (some b) = text_eq a b
login_matches _ _ = false

-- SELECT team_id FROM tutor WHERE course_phase_id = $1 AND university_login = $2
unfoldable pub select_teams : List TutorRow → Uuid → Option Text → List (Option Uuid)
select_teams [] phase login = []
select_teams (row ∷ rows) phase login =
    if row.course_phase_id == phase && login_matches row.university_login login
    then row.team_id ∷ select_teams rows phase login
    else select_teams rows phase login

-- EXISTS (SELECT 1 FROM tutor WHERE course_phase_id = $1)
unfoldable pub phase_has_tutors : List TutorRow → Uuid → Bool
phase_has_tutors [] phase = false
phase_has_tutors (row ∷ rows) phase = row.course_phase_id == phase || phase_has_tutors rows phase

-- the end of ResolveTutorTeam
unfoldable pub resolution : Option Uuid → Bool → Result ResolveError Uuid
resolution (some team) has_tutors = ok team
resolution none true = err not_a_tutor
resolution none false = err no_rows

-- A subquery in place of a value: NULL for no row, an error for more than one.
answer : List (Option Uuid) → Bool → Result ResolveError Uuid
unfolding resolution
answer [] has_tutors = resolution none has_tutors
answer (team ∷ []) has_tutors = resolution team has_tutors
answer (team ∷ _) has_tutors = err query_failed

login_param : Unicode → Text → Option Text
login_param u university_login =
    let login = normalize u university_login in if is_empty login then none else some login

unfoldable pub resolve_tutor_team : Unicode → List TutorRow → Bool → Resolver
unfolding login_param answer
resolve_tutor_team u rows fails phase university_login =
    if fails
    then err query_failed
    else answer (select_teams rows phase (login_param u university_login))
        (phase_has_tutors rows phase)

resolver_answer : Context → Result ResolveError Uuid → Context
resolver_answer c (ok team) = set c Key.tutor_team_id (Value.uuid team)
resolver_answer c (err no_rows) = c
resolver_answer c (err not_a_tutor) = abort c 403
resolver_answer c (err query_failed) = abort c 500

module _ (unicode : Unicode) (parse_uuid : Text → Option Uuid) (resolver : Resolver) where
  scope_editor : TokenUser → Context → Context
  unfolding resolver_answer
  scope_editor u c = elim (parse_uuid (param c (codes "coursePhaseID"))) [
    | none ↦ abort c 400
    | some phase ↦
        if phase == nil_uuid
        then abort c 400
        else resolver_answer c (resolver phase (normalize unicode u.university_login))
  ]

  -- Every `c.Next()` of the source stands right before a return.
  unfoldable pub scope : Context → Context
  unfolding scope_editor
  scope c =
      let marked = set c Key.tutor_scoping_applied (Value.flag true) in
      elim (get_token_user marked) [
        | none ↦ marked
        | some u ↦ if not u.is_editor || u.is_lecturer then marked else scope_editor u marked
      ]

  unfoldable pub tutor_scoping_middleware : Handler
  unfolding scope
  tutor_scoping_middleware = in_front scope

unfoldable pub get_tutor_team_id : Context → Option Uuid
get_tutor_team_id c = elim (c.keys Key.tutor_team_id) [ some (Value.uuid id) ↦ some id | _ ↦ none ]

unfoldable pub tutor_scoping_applied : Context → Bool
tutor_scoping_applied c = elim (c.keys Key.tutor_scoping_applied) [
  | some (Value.flag ran) ↦ ran
  | _ ↦ false
]

-- getLecturerAndEditorRole.go
unfoldable pub course_roles_resolved : Context → Bool
course_roles_resolved c = elim (c.keys Key.course_roles_resolved) [
  | some (Value.flag ran) ↦ ran
  | _ ↦ false
]

pub record Access : Type 0 where
  pub team_id : Uuid
  pub confined : Bool
  pub granted : Bool

-- `Access{}`
abbrev pub no_access : Access
no_access = record { team_id = nil_uuid; confined = false; granted = false }

pub data WriteError : Type 0 where
  not_authenticated write_denied scoping_not_applied course_roles_not_resolved : WriteError

-- The result of a call is its access and, unless it succeeds, its error.
editor_access : Context → Access × Option WriteError
editor_access c =
    if not (tutor_scoping_applied c)
    then (no_access, some scoping_not_applied)
    else elim (get_tutor_team_id c) [
      | none ↦ (no_access, some write_denied)
      | some team ↦ (record { team_id = team; confined = true; granted = true }, none)
    ]

user_access : TokenUser → Context → Access × Option WriteError
unfolding editor_access
user_access u c =
    if has_role u.roles prompt_admin || u.is_lecturer
    then (record { team_id = nil_uuid; confined = false; granted = true }, none)
    else if u.is_editor
    then editor_access c
    else if has_role u.roles prompt_lecturer && not (course_roles_resolved c)
    then (no_access, some course_roles_not_resolved)
    else (no_access, some write_denied)

unfoldable pub authorize_write : Context → Access × Option WriteError
unfolding user_access
authorize_write c = elim (get_token_user c) [
  | none ↦ (no_access, some not_authenticated)
  | some u ↦ user_access u c
]

unfoldable pub unrestricted : Access → Bool
unrestricted a = a.granted && not a.confined

unfoldable pub allows_team : Access → Uuid → Bool
allows_team a team = if not a.granted then false else not a.confined || a.team_id == team

-- The guard of a mutating statement: `none` is SQL's NULL.
unfoldable pub guard : Access → Option Uuid
guard a = if not a.granted then some nil_uuid else if not a.confined then none else some a.team_id

-- `team_id = COALESCE(expected_team_id, team_id)`, the condition that carries the guard, at the
-- team that a row holds
unfoldable pub guard_matches : Option Uuid → Uuid → Bool
guard_matches none team = true
guard_matches (some expected) team = team == expected

-- A row of the table of allocations, and the guarded statement that moves a participant. It is
-- the SQL that the comment on Guard asks a service to run, since the guard protects nothing alone.
pub record Allocation : Type 0 where
  pub course_participation_id : Uuid
  pub course_phase_id : Uuid
  pub team : Uuid

unfoldable pub update_team : Option Uuid → Uuid → Uuid → Uuid → List Allocation → List Allocation
update_team expected participant phase team [] = []
update_team expected participant phase team (row ∷ rows) =
    (if row.course_participation_id == participant
        && row.course_phase_id == phase
        && guard_matches expected row.team
      then record row { team = team }
      else row)
    ∷ update_team expected participant phase team rows
