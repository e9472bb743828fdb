-- ===== src/Audit/Outcomes.antt =====
-- Every event that leaves a request says how it ended.
use prompt_sdk.Prelude.{
  ℕ, ◌≤◌, ◌<◌, ◌⊎◌, ◌≡◌, ◌≢◌, ◌↔◌, inl, inr, Bool, true, false, ◌||◌, some, List, [], ◌∷◌, Text,
  is_empty, All, All-append, Bool-cases, Option-cases, arith, Unicode,
}
use prompt_sdk.Event.{Event, outcome_success, outcome_denied, outcome_error}
use prompt_sdk.Gin.{Key, Value, Context, set, get_bool}
use prompt_sdk.Audit.Actors.{apply_actor}
use prompt_sdk.Audit.Action.{is_mutating}
use prompt_sdk.Audit.{
  Runtime, MiddlewareOption, new_runtime, stamp, write, has_runtime, buffered, buffer_event,
  fill_in, emit, with_actor, record_event, complete, outcome_for, outcome_for_status, flush,
  flush_recorded_events, build_event, backstop, middleware,
}

outcome_for_status-some :
    (status : ℕ) (o : Text) → outcome_for_status status ≡ some o → is_empty o ≡ false
unfolding outcome_for_status outcome_success outcome_denied
outcome_for_status-some status o h = ground arith

outcome_for-not_empty : (status : ℕ) → is_empty (outcome_for status) ≡ false
unfolding outcome_for outcome_error
outcome_for-not_empty status = elim (Option-cases (outcome_for_status status)) [
  | inl e ↦ rw (e, outcome_for)
  | inr (o, e) ↦ rw (e, outcome_for) (outcome_for_status-some status o e)
]

-- A buffered event leaves with an outcome: its own, or one of the response's class, which is a
-- success exactly for 2xx, a denial exactly for 401 and 403, and otherwise an error.
pub outcome_for_class :
    (status : ℕ)
    → ((outcome_for status ≡ outcome_success) ↔ ((200 ≤ status) × (status < 300)))
      × ((outcome_for status ≡ outcome_denied) ↔ ((status ≡ 401) ⊎ (status ≡ 403)))
      × ((outcome_for status ≡ outcome_error)
          ↔ (((status < 200) ⊎ (300 ≤ status)) × (status ≢ 401) × (status ≢ 403)))
unfolding outcome_for outcome_for_status outcome_success outcome_denied outcome_error
outcome_for_class status = ground arith

abbrev pub HasOutcome : Event → Type 0
HasOutcome e = is_empty e.outcome ≡ false

complete-HasOutcome : (status : ℕ) (e : Event) → HasOutcome (complete status e)
unfolding complete
complete-HasOutcome status e = ground (arith, outcome_for-not_empty status)

module _ (u : Unicode) (rt : Runtime) where
  write-HasOutcome :
      (e : Event) (c : Context)
      → HasOutcome e
      → All HasOutcome c.outbox
      → All HasOutcome (write rt e c).outbox
  unfolding write stamp
  write-HasOutcome e c given h =
      All-append HasOutcome c.outbox (stamp rt e ∷ []) h (ground arith, tt)

  emit-HasOutcome :
      (c : Context) (e : Event) → All HasOutcome c.outbox → All HasOutcome (emit u rt c e).outbox
  unfolding emit
  emit-HasOutcome c e h =
      let c' = set c Key.audit_recorded (Value.flag true) in
      let e' = fill_in u c' e in
      elim (Bool-cases (is_empty e'.outcome)) [
        | inl blank ↦ rw blank (unfold buffer_event set in h)
        | inr given ↦ rw given (write-HasOutcome e' c' given (unfold set in h))
      ]

  -- What a handler records is handed on with an outcome, or waits for the response.
  pub record_event-HasOutcome :
      (c : Context) (e : Event)
      → All HasOutcome c.outbox
      → All HasOutcome (record_event u rt c e).outbox
  unfolding record_event with_actor
  record_event-HasOutcome c e h = elim (Bool-cases (has_runtime c)) [
    | inr off ↦ rw off h
    | inl on ↦ elim (Bool-cases (is_empty e.actor_id)) [
      | inr given ↦ rw (on, given) (emit-HasOutcome c e h)
      | inl blank ↦ elim (Option-cases (rt.extractor c)) [
        | inl nobody ↦ rw (on, blank, nobody) h
        | inr (a, found) ↦ rw (on, blank, found) (emit-HasOutcome c (apply_actor e a) h)
      ]
    ]
  ]

  flush-HasOutcome :
      (status : ℕ) (es : List Event) (c : Context)
      → All HasOutcome c.outbox
      → All HasOutcome (flush rt status es c).outbox
  unfolding flush
  flush-HasOutcome status [] c h = h
  flush-HasOutcome status (e ∷ es) c h =
      flush-HasOutcome status es _
        (write-HasOutcome (complete status e) c (complete-HasOutcome status e) h)

  backstop-HasOutcome :
      (c : Context) → All HasOutcome c.outbox → All HasOutcome (backstop u rt c).outbox
  unfolding backstop
  backstop-HasOutcome c h =
      elim (Bool-cases (get_bool c Key.audit_skip || get_bool c Key.audit_recorded)) [
        | inl done ↦ rw done h
        | inr due ↦ elim (Option-cases (outcome_for_status c.status)) [
          | inl unclassified ↦ rw (due, unclassified) h
          | inr (outcome, classified) ↦ elim (Bool-cases (is_mutating c.method)) [
            | inr reads ↦ rw (due, classified, reads) h
            | inl writes ↦ elim (Option-cases (rt.extractor c)) [
              | inl nobody ↦ rw (due, classified, writes, nobody) h
              | inr (a, found) ↦
                  rw (due, classified, writes, found)
                    (write-HasOutcome (build_event u c a outcome) c
                      (unfold build_event apply_actor in
                        outcome_for_status-some c.status outcome classified)
                      h)
            ]
          ]
        ]
      ]

-- Whatever the handlers record, every event that a request hands on says how it ended: where the
-- handlers keep an outcome in each event that they hand on, the audit middleware does so too,
-- for the buffered events that had none and for the automatic one.
pub middleware-HasOutcome :
    (u : Unicode) (enabled_sink : Bool) (opts : List MiddlewareOption)
    → (next : Context → Context)
    → ((d : Context) → All HasOutcome d.outbox → All HasOutcome (next d).outbox)
    → (c : Context) → All HasOutcome c.outbox
    → All HasOutcome (middleware u enabled_sink opts next c).outbox
unfolding middleware flush_recorded_events
middleware-HasOutcome u false opts next keeps c h = keeps c h
middleware-HasOutcome u true opts next keeps c h =
    let rt = new_runtime u opts in
    let d = next (set c Key.audit_runtime Value.runtime) in
    backstop-HasOutcome u rt (flush rt d.status (buffered d) d)
      (flush-HasOutcome u rt d.status (buffered d) d (keeps _ (unfold set in h)))
