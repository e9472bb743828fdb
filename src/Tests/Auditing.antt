-- ===== src/Tests/Auditing.antt =====
-- The theorems on the audit log at concrete requests, and runs of the middleware.
use prompt_sdk.Prelude.{
  ◌&&◌, ◌==◌, ◌≡◌, refl, ◌↔◌, ◌⊎◌, inl, ◌+◌, ◌≤◌, true, none, some, [], ◌∷◌, ◌++◌, codes, is_empty,
  length, split, has_prefix, has_suffix, trim_suffix, replace_byte, to_lower, text_eq, arith,
  if◌then◌else◌, All, ltb,
}
use prompt_sdk.Event.{Event}
use prompt_sdk.Gin.{Context, respond, get_bool}
use prompt_sdk.Audit.{
  Runtime, new_runtime, record_event, middleware, backstop, outcome_for, buffered,
}
use prompt_sdk.Memberships.{get_token_user}
use prompt_sdk.Audit.Action.{derive_action, is_mutating}
use mathlib.Core.List.Perm
use prompt_sdk.Audit.Actors.{default_actor_extractor, actor_of}
use prompt_sdk.Audit.Stable.{actor_of-perm}
use prompt_sdk.Identity.{TokenUser}
use prompt_sdk.Audit.Named.{
  IsAttributed, middleware-IsAttributed, record_event-IsAttributed,
  default_actor_extractor-FindsActors,
}
use prompt_sdk.Audit.Flush.{IsDue, automatic_iff, middleware-record_event}
use prompt_sdk.Audit.Outcomes.{HasOutcome, record_event-HasOutcome}
use prompt_sdk.Audit.Delivery.{Pool, offer, over, start, offered, ended, Run-bounds}
use prompt_sdk.Audit.Sink.{
  CoreSink, HttpClient, Request, record_shipment, IsTransient, IsAccepted, record_delivers_iff,
}
use prompt_sdk.Tests.World.{request, request_of, lecturer, unicode}

-- What a handler writes that names only the subject, and one that gives everything.
abbrev graded : Event
graded = record {
  actor_id = codes "u1";
  actor_name = [];
  actor_email = [];
  actor_roles = [];
  actor_role = [];
  action = codes "Graded";
  action_key = [];
  outcome = [];
  entity_type = [];
  entity_id = codes "42";
  entity_name = [];
  course_id = [];
  course_phase_id = [];
  source_service = [];
  http_method = [];
  http_path = [];
  http_status = 0;
  metadata = none;
}

abbrev rt : Runtime
rt = new_runtime unicode []

abbrev grade : Context → Context
grade d = respond (record_event unicode rt d graded) 409

middleware-record_event_example :
    (f : Event) × ((middleware unicode true [] grade request).outbox ≡ [] ++ f ∷ [])
    × (f.actor_id ≡ codes "u1")
    × (f.outcome ≡ (if is_empty graded.outcome then outcome_for 409 else graded.outcome))
    × (f.http_status
        ≡ (if is_empty graded.outcome && graded.http_status == 0 then 409 else graded.http_status))
middleware-record_event_example = middleware-record_event unicode [] graded 409 request refl refl

record_only : Context → Context
record_only d = record_event unicode rt d graded

record_only-IsAttributed : (d : Context) → IsAttributed d → IsAttributed (record_only d)
unfolding record_only new_runtime default_actor_extractor
record_only-IsAttributed d h =
    record_event-IsAttributed unicode rt (default_actor_extractor-FindsActors unicode) d graded h

record_only-HasOutcome :
    (d : Context) → All HasOutcome d.outbox → All HasOutcome (record_only d).outbox
unfolding record_only
record_only-HasOutcome d h = record_event-HasOutcome unicode rt d graded h

request-IsAttributed : IsAttributed request
unfolding buffered
request-IsAttributed = record { sent = tt; waiting = tt }

middleware-IsAttributed_example : IsAttributed (middleware unicode true [] record_only request)
middleware-IsAttributed_example =
    middleware-IsAttributed unicode true [] tt record_only record_only-IsAttributed request
      request-IsAttributed

automatic_iff_example :
    (length (backstop unicode rt (request_of lecturer)).outbox ≡ 0 + 1)
    ↔ IsDue unicode rt (request_of lecturer)
automatic_iff_example = automatic_iff unicode rt (request_of lecturer)

-- A mutating request of a known caller that ended well is due.
lecturer-IsDue : IsDue unicode rt (request_of lecturer)
unfolding get_bool is_mutating text_eq new_runtime default_actor_extractor get_token_user
lecturer-IsDue = record {
  not_suppressed = refl;
  not_recorded = refl;
  mutates = refl;
  classified = inl (omega arith, omega arith);
  known = ground arith;
}

label :
    derive_action unicode (codes "POST") (codes "/api/course_phase/:id/time-slots")
    ≡ codes "Created time slot"
unfolding derive_action split has_prefix has_suffix trim_suffix replace_byte to_lower text_eq
label = refl

Run-bounds_example :
    (length
        (over 0 (offer graded (record { in_flight = []; finished = []; dropped = [] }))).in_flight
      ≤ 64)
    × (1 ≤ 64
        → (over 0 (offer graded (record { in_flight = []; finished = []; dropped = [] }))).dropped
          ≡ [])
Run-bounds_example = Run-bounds (ended 0 (offered graded start))

abbrev ended_once : Pool
ended_once = over 0 (offer graded (record { in_flight = []; finished = []; dropped = [] }))

abbrev http : HttpClient
http = record {
  marshal = λ e. some (codes "{}");
  builds = λ url. true;
  send = λ attempt r. if ltb attempt 1 then none else some 201;
}

abbrev sink : CoreSink
sink = record { url = codes "http://core/api/audit"; service = codes "interview"; key = codes "k" }

abbrev post : Request
post = record { url = sink.url; body = codes "{}"; service = sink.service; key = sink.key }

record_delivers_iff_example : ((record_shipment http sink graded).failure ≡ none) ↔ (
    IsAccepted (http.send 0 post)
    ⊎ (IsTransient (http.send 0 post) × IsAccepted (http.send 1 post))
    ⊎ (IsTransient (http.send 0 post)
        × IsTransient (http.send 1 post)
        × IsAccepted (http.send 2 post)))
record_delivers_iff_example = record_delivers_iff http sink graded (codes "{}") refl refl

delivered_second : (record_shipment http sink graded).failure ≡ none
unfolding record_shipment
delivered_second = refl

-- A tutor of one course who is a guest of another, by the roles in two orders.
abbrev tutor : TokenUser
tutor = record lecturer { roles = (codes "ios-Tutor", true) ∷ (codes "guest", true) ∷ [] }

actor_of-perm_example :
    actor_of unicode
      (record tutor { roles = (codes "guest", true) ∷ (codes "ios-Tutor", true) ∷ [] })
    ≡ actor_of unicode tutor
actor_of-perm_example =
    actor_of-perm unicode tutor ((codes "guest", true) ∷ (codes "ios-Tutor", true) ∷ [])
      (Perm.swap (codes "guest", true) (codes "ios-Tutor", true) [])
      (((λ e. absurd (ground (arith, e))), tt), (tt, tt)) (refl, (refl, tt))
