-- ===== src/Audit.antt =====
-- audit/context.go, audit/middleware.go and audit/config.go: what is recorded about a request.
-- An event handed to `runtime.write` is appended to the outbox of the context, in order; how it
-- is delivered from there is Audit.Delivery.
pub mod Action
pub mod Actors
pub mod Stable
pub mod Delivery
pub mod Sink
pub mod Named
pub mod Flush
pub mod Outcomes
use prompt_sdk.Prelude.{
  ℕ, Bool, true, false, not, ◌&&◌, ◌||◌, Option, none, some, List, [], ◌∷◌, ◌++◌, map, Text, codes,
  is_empty, text_eq, ◌==◌, leb, ltb, if◌then◌else◌, Unicode,
}
use prompt_sdk.Event.{Event, outcome_success, outcome_denied, outcome_error}
use prompt_sdk.Gin.{Key, Value, Context, set, get_bool, param, Handler}
use Action.{is_mutating, derive_action}
use Actors.{Actor, apply_actor, default_actor_extractor}

abbrev pub ActorExtractor : Type 0
ActorExtractor = Context → Option Actor

-- The sink and the slots of the runtime belong to the delivery.
pub record Runtime : Type 0 where
  pub extractor : ActorExtractor
  pub source : Text

pub data MiddlewareOption : Type 0 where
  with_actor_extractor : Option ActorExtractor → MiddlewareOption  -- `none` for nil
  with_source_service : Text → MiddlewareOption

apply_option : Runtime → MiddlewareOption → Runtime
apply_option rt (with_actor_extractor none) = rt
apply_option rt (with_actor_extractor (some f)) = record rt { extractor = f }
apply_option rt (with_source_service name) = record rt { source = name }

apply_options : Runtime → List MiddlewareOption → Runtime
unfolding apply_option
apply_options rt [] = rt
apply_options rt (opt ∷ opts) = apply_options (apply_option rt opt) opts

unfoldable pub new_runtime : Unicode → List MiddlewareOption → Runtime
unfolding apply_options
new_runtime u opts =
    apply_options (record { extractor = default_actor_extractor u; source = [] }) opts

-- `runtime.write`, up to the delivery
unfoldable pub stamp : Runtime → Event → Event
stamp rt e = if is_empty e.source_service then record e { source_service = rt.source } else e

unfoldable pub write : Runtime → Event → Context → Context
unfolding stamp
write rt e c = record c { outbox = c.outbox ++ stamp rt e ∷ [] }

unfoldable pub has_runtime : Context → Bool
has_runtime c = elim (c.keys Key.audit_runtime) [ some Value.runtime ↦ true | _ ↦ false ]

-- the two middlewares for routes, and Suppress
unfoldable pub describe : Text → Context → Context
describe label c = set c Key.audit_action (Value.str label)

unfoldable pub suppress : Context → Context
suppress c = set c Key.audit_skip (Value.flag true)

unfoldable pub buffered : Context → List Event
buffered c = elim (c.keys Key.audit_recorded_events) [ some (Value.events es) ↦ es | _ ↦ [] ]

unfoldable pub buffer_event : Context → Event → Context
unfolding buffered
buffer_event c e = set c Key.audit_recorded_events (Value.events (buffered c ++ e ∷ []))

label_or : Option Value → Text → Text
label_or (some (Value.str s)) default = if is_empty s then default else s
label_or _ default = default

unfoldable pub action_label : Unicode → Context → Text → Text → Text
unfolding label_or
action_label u c method route_template =
    label_or (c.keys Key.audit_action) (derive_action u method route_template)

-- a copy of the map has the same entries
unfoldable pub clone_metadata : Option (List (Text × Text)) → Option (List (Text × Text))
clone_metadata none = none
clone_metadata (some m) = some m

abbrev or_default : Text → Text → Text
or_default t default = if is_empty t then default else t

-- the blanks that Record fills in, once the actor is known
unfoldable pub fill_in : Unicode → Context → Event → Event
unfolding clone_metadata action_label
fill_in u c e = record e {
  http_method = or_default e.http_method c.method;
  http_path = or_default e.http_path c.full_path;
  action_key = or_default e.action_key (c.method ++ (codes " " ++ c.full_path));
  action = or_default e.action (action_label u c c.method c.full_path);
  metadata = clone_metadata e.metadata;
}

-- the end of Record, with an event that has its actor
emit : Unicode → Runtime → Context → Event → Context
unfolding fill_in write buffer_event
emit u rt c e =
    let c' = set c Key.audit_recorded (Value.flag true) in
    let e' = fill_in u c' e in if is_empty e'.outcome then buffer_event c' e' else write rt e' c'

with_actor : Unicode → Runtime → Context → Event → Option Actor → Context
unfolding emit
with_actor u rt c e none = c
with_actor u rt c e (some actor) = emit u rt c (apply_actor e actor)

-- `Record`
unfoldable pub record_event : Unicode → Runtime → Context → Event → Context
unfolding with_actor emit
record_event u rt c e =
    if not (has_runtime c)
    then c
    else if is_empty e.actor_id
    then with_actor u rt c e (rt.extractor c)
    else emit u rt c e

unfoldable pub outcome_for_status : ℕ → Option Text
outcome_for_status status =
    if leb 200 status && ltb status 300
    then some outcome_success
    else if status == 401 || status == 403
    then some outcome_denied
    else none

unfoldable pub outcome_for : ℕ → Text
unfolding outcome_for_status
outcome_for status = elim (outcome_for_status status) [ none ↦ outcome_error | some o ↦ o ]

-- what the flush stamps on a buffered event
unfoldable pub complete : ℕ → Event → Event
unfolding outcome_for
complete status e =
    let e' = if e.http_status == 0 then record e { http_status = status } else e in
    if is_empty e'.outcome then record e' { outcome = outcome_for status } else e'

flush : Runtime → ℕ → List Event → Context → Context
unfolding complete write
flush rt status [] c = c
flush rt status (e ∷ es) c = flush rt status es (write rt (complete status e) c)

unfoldable pub flush_recorded_events : Runtime → Context → Context
unfolding flush buffered
flush_recorded_events rt c = flush rt c.status (buffered c) c

first_param : Context → List Text → Text
first_param c [] = []
first_param c (name ∷ names) = let v = param c name in if is_empty v then first_param c names else v

unfoldable pub build_event : Unicode → Context → Actor → Text → Event
unfolding first_param action_label
build_event u c actor outcome =
    apply_actor
      (record {
        actor_id = [];
        actor_name = [];
        actor_email = [];
        actor_roles = [];
        actor_role = [];
        action = action_label u c c.method c.full_path;
        action_key = c.method ++ (codes " " ++ c.full_path);
        outcome = outcome;
        entity_type = [];
        entity_id = first_param c (codes "uuid" ∷ codes "id" ∷ []);
        entity_name = [];
        course_id = first_param c (codes "courseId" ∷ codes "courseID" ∷ []);
        course_phase_id = param c (codes "coursePhaseID");
        source_service = [];
        http_method = c.method;
        http_path = c.full_path;
        http_status = c.status;
        metadata = none;
      })
      actor

-- the automatic entry, where the request calls for one
unfoldable pub backstop : Unicode → Runtime → Context → Context
unfolding write build_event
backstop u rt c =
    if get_bool c Key.audit_skip || get_bool c Key.audit_recorded
    then c
    else elim (outcome_for_status c.status) [
      | none ↦ c
      | some outcome ↦ if not (is_mutating c.method) then c else elim (rt.extractor c) [
        | none ↦ c
        | some actor ↦ write rt (build_event u c actor outcome) c
      ]
    ]

-- `Middleware`: `false` stands for a nil sink
unfoldable pub middleware : Unicode → Bool → List MiddlewareOption → Handler
unfolding backstop flush_recorded_events
middleware u false opts next c = next c
middleware u true opts next c =
    let rt = new_runtime u opts in
    backstop u rt (flush_recorded_events rt (next (set c Key.audit_runtime Value.runtime)))

-- `Enabled`, with the value of AUDIT_ENABLED
unfoldable pub enabled : Option Text → Bool
enabled none = false
enabled (some value) = text_eq value (codes "true")
