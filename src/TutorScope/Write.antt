-- ===== src/TutorScope/Write.antt =====
-- Which rows a caller can write, with the access that AuthorizeWrite gives (authorize.go).
use prompt_sdk.Prelude.{
  ◌≡◌, ◌≢◌, refl, ◌↔◌, ◌⊎◌, inl, inr, true, false, Option, none, some, List, [], ◌∷◌, Text, codes,
  ◌==◌, ok, err, Option-cases, Result-cases, Bool-cases, arith, All, if◌then◌else◌, Unicode,
}
use prompt_sdk.Identity.{Uuid, nil_uuid, has_role, TokenUser, prompt_admin}
use prompt_sdk.Gin.{Context, set, abort, param}
use prompt_sdk.Memberships.{get_token_user}
use prompt_sdk.TutorScope.{
  Resolver, ResolveError, no_rows, normalize, scope, get_tutor_team_id, tutor_scoping_applied,
  Access, no_access, authorize_write, unrestricted, allows_team, guard, guard_matches, Allocation,
  update_team,
}

-- The guard that goes into a statement and the test before it agree: at a team that is not the
-- nil UUID, the guard of an access matches exactly if the access allows the team.
pub guard-allows_team :
    (a : Access) (team : Uuid) → team ≢ nil_uuid → guard_matches (guard a) team ≡ allows_team a team
unfolding guard_matches guard allows_team
guard-allows_team a team real = ground arith

-- A call returns an error exactly if the access beside it grants nothing, and an access beside an
-- error is the zero value.
pub authorize_write_fails_closed :
    (c : Context)
    → (((authorize_write c).1 ≡ none) ↔ ((authorize_write c).0.granted ≡ true))
      × (((authorize_write c).1 ≢ none) → (authorize_write c).0 ≡ no_access)
unfolding authorize_write
authorize_write_fails_closed c = ground arith

-- A signed-in caller may write every team exactly if they hold `PROMPT_Admin` or are a lecturer
-- of the course.
pub unrestricted_iff :
    (c : Context) (u : TokenUser)
    → get_token_user c ≡ some u
    → (unrestricted (authorize_write c).0 ≡ true)
      ↔ ((has_role u.roles prompt_admin ≡ true) ⊎ (u.is_lecturer ≡ true))
unfolding authorize_write unrestricted
unrestricted_iff c u known = ground arith

module _ (unicode : Unicode) (parse_uuid : Text → Option Uuid) (resolver : Resolver) where
  abbrev pub Assigned : Context → TokenUser → Uuid → Type 0
  Assigned c u team =
      (phase : Uuid) × (parse_uuid (param c (codes "coursePhaseID")) ≡ some phase)
      × (phase ≢ nil_uuid)
      × (resolver phase (normalize unicode u.university_login) ≡ ok team)

  module _ (c : Context) (u : TokenUser) (known : get_token_user c ≡ some u)
      (editor : u.is_editor ≡ true) (no_lecturer : u.is_lecturer ≡ false)
      (no_admin : has_role u.roles prompt_admin ≡ false) (fresh : get_tutor_team_id c ≡ none) where
    no_team :
        (phase : Uuid) (fault : ResolveError) (team : Uuid)
        → parse_uuid (param c (codes "coursePhaseID")) ≡ some phase
        → phase == nil_uuid ≡ false
        → resolver phase (normalize unicode u.university_login) ≡ err fault
        → allows_team (authorize_write (scope unicode parse_uuid resolver c)).0 team ≡ true
        → ⊥
    unfolding allows_team authorize_write scope set get_token_user get_tutor_team_id
        tutor_scoping_applied param abort
    no_team phase no_rows team e n f h = ground arith
    no_team phase _ team e n f h = ground arith

    scoped_sound :
        (team : Uuid)
        → allows_team (authorize_write (scope unicode parse_uuid resolver c)).0 team ≡ true
        → Assigned c u team
    unfolding allows_team authorize_write scope set get_token_user get_tutor_team_id
        tutor_scoping_applied param abort
    scoped_sound team h = elim (Option-cases (parse_uuid (param c (codes "coursePhaseID")))) [
      | inl e ↦ absurd (ground arith)
      | inr (phase, e) ↦ elim (Bool-cases (phase == nil_uuid)) [
        | inl n ↦ absurd (ground arith)
        | inr n ↦ elim (Result-cases (resolver phase (normalize unicode u.university_login))) [
          | inl (found, f) ↦ (phase, e, ground arith, ground arith)
          | inr (fault, f) ↦ absurd (no_team phase fault team e n f h)
        ]
      ]
    ]

    scoped_complete :
        (team : Uuid)
        → Assigned c u team
        → allows_team (authorize_write (scope unicode parse_uuid resolver c)).0 team ≡ true
    unfolding allows_team authorize_write scope set get_token_user get_tutor_team_id
        tutor_scoping_applied param
    scoped_complete team (phase, e, real, f) = ground arith

    -- For an editor of the course who is neither a lecturer nor an admin, on a request that no
    -- scoping has touched: behind the scoping middleware the caller may write a team exactly if
    -- the path names a course phase and the resolver gives that team for the normalized login.
    pub scoped_write_iff :
        (team : Uuid)
        → (allows_team (authorize_write (scope unicode parse_uuid resolver c)).0 team ≡ true)
          ↔ Assigned c u team
    scoped_write_iff team = (scoped_sound team, scoped_complete team)

-- The allocations of the teams other than `team`.
unfoldable pub outside : Uuid → List Allocation → List Allocation
outside team [] = []
outside team (row ∷ rows) = if row.team == team then outside team rows else row ∷ outside team rows

-- A confined caller who moves a participant to a team that their access allows, by a statement
-- that carries their guard, changes no allocation of another team, and brings none into one.
pub outside-update_team :
    (a : Access) (participant phase team : Uuid) (rows : List Allocation)
    → a.confined ≡ true
    → allows_team a team ≡ true
    → outside a.team_id (update_team (guard a) participant phase team rows) ≡ outside a.team_id rows
unfolding outside update_team guard_matches guard allows_team
outside-update_team a participant phase team [] confined allowed = refl
outside-update_team a participant phase team (row ∷ rows) confined allowed =
    ground (arith, outside-update_team a participant phase team rows confined allowed)

-- Without access the guarded statement writes nothing, where no row holds the nil team.
pub update_team-no_access :
    (participant phase team : Uuid) (rows : List Allocation)
    → All (λ row. row.team ≢ nil_uuid) rows
    → update_team (guard no_access) participant phase team rows ≡ rows
unfolding update_team guard_matches guard
update_team-no_access participant phase team [] real = refl
update_team-no_access participant phase team (row ∷ rows) (real, more) =
    ground (arith, update_team-no_access participant phase team rows more)
