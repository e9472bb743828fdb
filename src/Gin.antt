-- ===== src/Gin.antt =====
-- The part of the web framework that the program talks to: the request context with its keys,
-- and a chain of handlers, of which each may abort, answer, or run the rest by `c.Next()`.
-- The framework is not part of the repository; what it documents is written out here: `Set`
-- overwrites a key, `Abort` stops the rest of the chain, and a handler that neither aborts nor
-- calls `Next` is followed by the rest.
pub mod Laws
use prompt_sdk.Prelude.{
  ℕ, Bool, true, false, Option, none, some, List, [], ◌∷◌, Text, text_eq, ◌==◌, if◌then◌else◌,
}
use prompt_sdk.Identity.{Uuid, Roles, TokenUser, SubjectIdentifiers}
use prompt_sdk.Event.{Event}

-- The context keys that the program sets, each a string constant of its own, and those of others.
pub data Key : Type 0 where
  token_user : Key  -- "tokenUser"
  user_roles user_id user_email matriculation_number university_login first_name last_name : Key
  is_lecturer is_editor custom_role_prefix course_roles_resolved : Key
  is_student_of_course is_student_of_course_phase course_participation_id : Key
  tutor_team_id tutor_scoping_applied : Key
  subject_identifiers : Key
  audit_runtime audit_action audit_skip audit_recorded audit_recorded_events : Key

-- A value under a key, with its dynamic type.
pub data Value : Type 0 where
  user : TokenUser → Value
  flag : Bool → Value
  str : Text → Value
  uuid : Uuid → Value
  role_map : Roles → Value
  subject : SubjectIdentifiers → Value
  events : List Event → Value
  runtime : Value

pub record Context : Type 0 where
  pub keys : Key → Option Value
  pub aborted : Bool
  pub status : ℕ  -- `c.Writer.Status()`, 200 at first
  pub method : Text
  pub full_path : Text  -- the route template
  pub params : List (Text × Text)
  pub authorization : Text  -- the header, empty if absent
  pub outbox : List Event  -- what was handed to the delivery of audit events, in order

index : Key → ℕ
index token_user = 0
index user_roles = 1
index user_id = 2
index user_email = 3
index matriculation_number = 4
index university_login = 5
index first_name = 6
index last_name = 7
index is_lecturer = 8
index is_editor = 9
index custom_role_prefix = 10
index course_roles_resolved = 11
index is_student_of_course = 12
index is_student_of_course_phase = 13
index course_participation_id = 14
index tutor_team_id = 15
index tutor_scoping_applied = 16
index subject_identifiers = 17
index audit_runtime = 18
index audit_action = 19
index audit_skip = 20
index audit_recorded = 21
index audit_recorded_events = 22

unfoldable pub key_eq : Key → Key → Bool
unfolding index
key_eq k j = index k == index j

-- `c.Set(k, v)`
unfoldable pub set : Context → Key → Value → Context
unfolding key_eq
set c k v = record c { keys = λ j. if key_eq k j then some v else c.keys j }

-- `c.GetBool(k)`
unfoldable pub get_bool : Context → Key → Bool
get_bool c k = elim (c.keys k) [ some (flag b) ↦ b | _ ↦ false ]

lookup_param : List (Text × Text) → Text → Text
lookup_param [] name = []
lookup_param ((k, v) ∷ ps) name = if text_eq k name then v else lookup_param ps name

-- `c.Param(name)`, the empty text if the route has no such parameter
unfoldable pub param : Context → Text → Text
unfolding lookup_param
param c name = lookup_param c.params name

-- `c.AbortWithStatusJSON`, `c.AbortWithError`, `c.AbortWithStatus`
unfoldable pub abort : Context → ℕ → Context
abort c status = record c { aborted = true; status = status }

-- `c.JSON`, `c.Status`: an answer that does not abort
unfoldable pub respond : Context → ℕ → Context
respond c status = record c { status = status }

-- A handler gets the rest of the chain, which `c.Next()` runs.
abbrev pub Handler : Type 0
Handler = (Context → Context) → Context → Context

-- A handler with no code after `c.Next()`.
unfoldable pub in_front : (Context → Context) → Handler
in_front h next c = let c' = h c in if c'.aborted then c' else next c'

unfoldable pub run_chain : List Handler → Context → Context
run_chain [] c = c
run_chain (h ∷ hs) c = h (run_chain hs) c
