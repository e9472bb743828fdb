-- ===== src/Audit/Named.antt =====
-- Every event that leaves a request names the human who acted.
use prompt_sdk.Prelude.{
  ℕ, ◌≡◌, ◌≢◌, inl, inr, Bool, true, false, ◌||◌, none, some, List, [], ◌∷◌, is_empty, All,
  All-append, Bool-cases, Option-cases, arith, Unicode,
}
use prompt_sdk.Event.{Event}
use prompt_sdk.Gin.{Key, Value, Context, set, get_bool}
use prompt_sdk.Memberships.{get_token_user}
use prompt_sdk.Audit.Actors.{Actor, apply_actor, default_actor_extractor}
use prompt_sdk.Audit.Action.{is_mutating}
use prompt_sdk.Audit.{
  ActorExtractor, Runtime, MiddlewareOption, with_actor_extractor, with_source_service, new_runtime,
  apply_option, apply_options, stamp, write, has_runtime, buffered, buffer_event, fill_in, emit,
  with_actor, record_event, outcome_for_status, complete, flush, flush_recorded_events, build_event,
  backstop, middleware,
}

abbrev pub HasActor : Event → Type 0
HasActor e = e.actor_id ≢ []

-- All events of a request, handed on or waiting for its end, name their actor.
pub record IsAttributed (c : Context) : Type 0 where
  pub sent : All HasActor c.outbox
  pub waiting : All HasActor (buffered c)

-- An extractor that finds an actor only with an identifier.
abbrev pub FindsActors : ActorExtractor → Type 0
FindsActors f = (c : Context) (a : Actor) → f c ≡ some a → a.id ≢ []

-- The extractor over the token user is one.
pub default_actor_extractor-FindsActors : (u : Unicode) → FindsActors (default_actor_extractor u)
unfolding default_actor_extractor
default_actor_extractor-FindsActors u c a h = elim (Option-cases (get_token_user c)) [
  | inl e ↦ absurd (ground arith)
  | inr (tu, e) ↦ elim (Bool-cases (is_empty tu.id)) [
    | inl b ↦ absurd (ground arith)
    | inr b ↦ ground arith
  ]
]

module _ (u : Unicode) (rt : Runtime) where
  write-IsAttributed :
      (e : Event) (c : Context) → HasActor e → IsAttributed c → IsAttributed (write rt e c)
  unfolding write buffered stamp
  write-IsAttributed e c named h = record {
    sent = All-append HasActor c.outbox (stamp rt e ∷ []) h.sent (ground arith, tt);
    waiting = h.waiting;
  }

  buffer_event-IsAttributed :
      (e : Event) (c : Context) → HasActor e → IsAttributed c → IsAttributed (buffer_event c e)
  unfolding buffer_event buffered set
  buffer_event-IsAttributed e c named h = record {
    sent = h.sent;
    waiting = All-append HasActor (buffered c) (e ∷ []) h.waiting (named, tt);
  }

  set_recorded-IsAttributed :
      (c : Context) → IsAttributed c → IsAttributed (set c Key.audit_recorded (Value.flag true))
  unfolding set buffered
  set_recorded-IsAttributed c h = record { sent = h.sent; waiting = h.waiting }

  emit-IsAttributed :
      (c : Context) (e : Event) → HasActor e → IsAttributed c → IsAttributed (emit u rt c e)
  unfolding emit
  emit-IsAttributed c e named h =
      let c' = set c Key.audit_recorded (Value.flag true) in
      let e' = fill_in u c' e in
      let h' = set_recorded-IsAttributed c h in
      elim (Bool-cases (is_empty e'.outcome)) [
        | inl blank ↦ rw blank (buffer_event-IsAttributed e' c' (unfold fill_in in named) h')
        | inr given ↦ rw given (write-IsAttributed e' c' (unfold fill_in in named) h')
      ]

  -- A handler that records an event keeps every event attributed, whatever it puts into it.
  pub record_event-IsAttributed :
      FindsActors rt.extractor
      → (c : Context) (e : Event) → IsAttributed c
      → IsAttributed (record_event u rt c e)
  unfolding record_event with_actor apply_actor
  record_event-IsAttributed finds c e h = elim (Bool-cases (has_runtime c)) [
    | inr off ↦ rw off h
    | inl on ↦ elim (Bool-cases (is_empty e.actor_id)) [
      | inr given ↦ rw (on, given) (emit-IsAttributed c e (ground arith) h)
      | inl blank ↦ elim (Option-cases (rt.extractor c)) [
        | inl nobody ↦ rw (on, blank, nobody) h
        | inr (a, found) ↦
            rw (on, blank, found) (emit-IsAttributed c (apply_actor e a) (finds c a found) h)
      ]
    ]
  ]

  complete-HasActor : (status : ℕ) (e : Event) → HasActor e → HasActor (complete status e)
  unfolding complete
  complete-HasActor status e named = ground arith

  flush-IsAttributed :
      (status : ℕ) (es : List Event) (c : Context)
      → All HasActor es
      → IsAttributed c
      → IsAttributed (flush rt status es c)
  unfolding flush
  flush-IsAttributed status [] c hs h = h
  flush-IsAttributed status (e ∷ es) c (named, more) h =
      flush-IsAttributed status es _ more
        (write-IsAttributed (complete status e) c (complete-HasActor status e named) h)

  backstop-IsAttributed :
      FindsActors rt.extractor → (c : Context) → IsAttributed c → IsAttributed (backstop u rt c)
  unfolding backstop build_event apply_actor
  backstop-IsAttributed finds c h =
      elim (Bool-cases (get_bool c Key.audit_skip || get_bool c Key.audit_recorded)) [
        | inl done ↦ rw done h
        | inr due ↦ elim (Option-cases (outcome_for_status c.status)) [
          | inl unclassified ↦ rw (due, unclassified) h
          | inr (outcome, classified) ↦ elim (Bool-cases (is_mutating c.method)) [
            | inr reads ↦ rw (due, classified, reads) h
            | inl writes ↦ elim (Option-cases (rt.extractor c)) [
              | inl nobody ↦ rw (due, classified, writes, nobody) h
              | inr (a, found) ↦
                  rw (due, classified, writes, found)
                    (write-IsAttributed (build_event u c a outcome) c
                      (unfold build_event apply_actor in finds c a found) h)
            ]
          ]
        ]
      ]

-- An option that installs no extractor, or one that finds only actors with an identifier.
abbrev pub IsSound : MiddlewareOption → Type 0
IsSound (with_actor_extractor none) = Unit
IsSound (with_actor_extractor (some f)) = FindsActors f
IsSound (with_source_service name) = Unit

apply_options-FindsActors :
    (opts : List MiddlewareOption) (rt : Runtime)
    → All IsSound opts
    → FindsActors rt.extractor
    → FindsActors (apply_options rt opts).extractor
unfolding apply_options apply_option
apply_options-FindsActors [] rt hs h = h
apply_options-FindsActors (with_actor_extractor none ∷ opts) rt (_, more) h =
    apply_options-FindsActors opts rt more h
apply_options-FindsActors (with_actor_extractor (some f) ∷ opts) rt (finds, more) h =
    apply_options-FindsActors opts (record rt { extractor = f }) more finds
apply_options-FindsActors (with_source_service name ∷ opts) rt (_, more) h =
    apply_options-FindsActors opts (record rt { source = name }) more h

-- With the default extractor, or any that finds only actors with an identifier: a request whose
-- handlers keep their events attributed, as those that record events by `Record` do, leaves the
-- audit middleware with an actor in every event handed on, buffered and automatic ones included.
pub middleware-IsAttributed :
    (u : Unicode) (enabled_sink : Bool) (opts : List MiddlewareOption)
    → All IsSound opts
    → (next : Context → Context) → ((d : Context) → IsAttributed d → IsAttributed (next d))
    → (c : Context) → IsAttributed c
    → IsAttributed (middleware u enabled_sink opts next c)
unfolding middleware flush_recorded_events new_runtime
middleware-IsAttributed u false opts sound next keeps c h = keeps c h
middleware-IsAttributed u true opts sound next keeps c h =
    let rt = new_runtime u opts in
    let d = next (set c Key.audit_runtime Value.runtime) in
    let start : IsAttributed (set c Key.audit_runtime Value.runtime) =
      unfold set buffered in record { sent = h.sent; waiting = h.waiting } in
    let after = keeps _ start in
    backstop-IsAttributed u rt
      (apply_options-FindsActors opts _ sound (default_actor_extractor-FindsActors u))
      (flush rt d.status (buffered d) d)
      (flush-IsAttributed u rt d.status (buffered d) d after.waiting after)
