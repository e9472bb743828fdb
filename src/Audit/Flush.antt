-- ===== src/Audit/Flush.antt =====
-- Which events the audit middleware hands on at the end of a request.
use prompt_sdk.Prelude.{
  ℕ, ◌+◌, ◌≤◌, ◌<◌, ◌⊎◌, ◌≡◌, ◌≢◌, refl, ap, ◌∙◌, ◌↔◌, inl, inr, true, false, ◌||◌, ◌&&◌, ◌==◌,
  none, List, [], ◌∷◌, ◌++◌, map, is_empty, length, length-append, Bool-cases, Option-cases, arith,
  if◌then◌else◌, Unicode,
}
use mathlib.Core.List.{append-nil, append_assoc}
use prompt_sdk.Event.{Event, outcome_success, outcome_denied}
use prompt_sdk.Gin.{Key, Value, Context, set, get_bool, respond}
use prompt_sdk.Audit.Action.{is_mutating}
use prompt_sdk.Audit.{
  Runtime, MiddlewareOption, new_runtime, stamp, write, has_runtime, buffered, buffer_event,
  fill_in, emit, record_event, complete, outcome_for, outcome_for_status, flush,
  flush_recorded_events, build_event, backstop, middleware,
}

module _ (u : Unicode) (rt : Runtime) where
  flush_lem :
      (status : ℕ) (es : List Event) (c : Context)
      → flush rt status es c
        ≡ record c { outbox = c.outbox ++ map (λ e. stamp rt (complete status e)) es }
  unfolding flush write
  flush_lem status [] c = rw (append-nil c.outbox)
  flush_lem status (e ∷ es) c =
      flush_lem status es _
      ∙ ap (λ es'. record c { outbox = es' })
          (append_assoc c.outbox (stamp rt (complete status e) ∷ [])
            (map (λ e'. stamp rt (complete status e')) es))

  -- The automatic entry of a request is due.
  pub record IsDue (c : Context) : Type 0 where
    pub not_suppressed : get_bool c Key.audit_skip ≡ false
    pub not_recorded : get_bool c Key.audit_recorded ≡ false
    pub mutates : is_mutating c.method ≡ true
    pub classified : ((200 ≤ c.status) × (c.status < 300)) ⊎ (c.status ≡ 401) ⊎ (c.status ≡ 403)
    pub known : rt.extractor c ≢ none

  length-write : (e : Event) (c : Context) → length (write rt e c).outbox ≡ length c.outbox + 1
  unfolding write
  length-write e c = length-append c.outbox (stamp rt e ∷ [])

  -- Behind the handlers, the outbox grows by an automatic entry exactly if the request did not
  -- suppress it and recorded nothing itself, has a mutating method, ended with a status of 2xx,
  -- 401 or 403, and has an actor.
  pub automatic_iff :
      (c : Context) → (length (backstop u rt c).outbox ≡ length c.outbox + 1) ↔ IsDue c
  unfolding backstop outcome_for_status
  automatic_iff c = elim (Bool-cases (get_bool c Key.audit_skip || get_bool c Key.audit_recorded)) [
    | inl done ↦ (λ h. absurd (ground arith), λ h. absurd (ground arith))
    | inr due ↦ elim (Bool-cases (is_mutating c.method)) [
      | inr reads ↦ (λ h. absurd (ground arith), λ h. absurd (ground arith))
      | inl writes ↦ elim (Option-cases (rt.extractor c)) [
        | inl nobody ↦ (λ h. absurd (ground arith), λ h. absurd (ground arith))
        | inr (a, found) ↦ (
          λ h. record {
            not_suppressed = ground arith;
            not_recorded = ground arith;
            mutates = writes;
            classified = ground arith;
            known = ground arith;
          },
          λ h. ground (
            arith,
            length-write (build_event u c a outcome_success) c,
            length-write (build_event u c a outcome_denied) c,
            h.classified,
          ),
        )
      ]
    ]
  ]

  settled :
      (d : Context)
      → get_bool d Key.audit_recorded ≡ true
      → (backstop u rt (flush_recorded_events rt d)).outbox
        ≡ d.outbox ++ map (λ e. stamp rt (complete d.status e)) (buffered d)
  unfolding backstop flush_recorded_events get_bool
  settled d h = rw (flush_lem d.status (buffered d) d) (ground arith)

  ending_buffered :
      (c : Context) (e : Event) (status : ℕ)
      → get_bool c Key.audit_recorded ≡ true
      → buffered c ≡ []
      → (backstop u rt (flush_recorded_events rt (respond (buffer_event c e) status))).outbox
        ≡ c.outbox ++ stamp rt (complete status e) ∷ []
  unfolding respond buffer_event set get_bool buffered
  ending_buffered c e status h fresh =
      settled (respond (buffer_event c e) status) h
      ∙ ap (λ es. c.outbox ++ map (λ e'. stamp rt (complete status e')) (es ++ e ∷ [])) fresh

  ending_written :
      (c : Context) (e : Event) (status : ℕ)
      → get_bool c Key.audit_recorded ≡ true
      → buffered c ≡ []
      → (backstop u rt (flush_recorded_events rt (respond (write rt e c) status))).outbox
        ≡ c.outbox ++ stamp rt e ∷ []
  unfolding respond write get_bool buffered
  ending_written c e status h fresh =
      settled (respond (write rt e c) status) h
      ∙ ap (λ es. (c.outbox ++ stamp rt e ∷ []) ++ map (λ e'. stamp rt (complete status e')) es)
          fresh
      ∙ append-nil (c.outbox ++ stamp rt e ∷ [])

  module _ (c : Context) (e : Event) (on : has_runtime c ≡ true)
      (named : is_empty e.actor_id ≡ false) where
    record_event-buffers :
        is_empty e.outcome ≡ true
        → record_event u rt c e
          ≡ buffer_event
              (set c Key.audit_recorded (Value.flag true))
              (fill_in u (set c Key.audit_recorded (Value.flag true)) e)
    unfolding record_event emit fill_in
    record_event-buffers blank = rw (on, named, blank)

    record_event-writes :
        is_empty e.outcome ≡ false
        → record_event u rt c e
          ≡ write rt
              (fill_in u (set c Key.audit_recorded (Value.flag true)) e)
              (set c Key.audit_recorded (Value.flag true))
    unfolding record_event emit fill_in
    record_event-writes given = rw (on, named, given)

-- A handler that records an event with an actor and then answers with `status`, in a request in
-- which nothing was recorded before: exactly one event is handed on, and it names that actor. If
-- the handler gave an outcome, the event keeps it and the handler's HTTP status, 0 if it gave
-- none; otherwise its outcome is that of `status`, and its HTTP status is the handler's or, if
-- that is 0, `status`.
pub middleware-record_event :
    (u : Unicode) (opts : List MiddlewareOption) (e : Event) (status : ℕ) (c : Context)
    → is_empty e.actor_id ≡ false
    → c.keys Key.audit_recorded_events ≡ none
    → (f : Event) × ((middleware u true opts
          (λ d. respond (record_event u (new_runtime u opts) d e) status)
          c).outbox
        ≡ c.outbox ++ f ∷ [])
      × (f.actor_id ≡ e.actor_id)
      × (f.outcome ≡ (if is_empty e.outcome then outcome_for status else e.outcome))
      × (f.http_status
          ≡ (if is_empty e.outcome && e.http_status == 0 then status else e.http_status))
unfolding middleware set
middleware-record_event u opts e status c named fresh =
    let rt = new_runtime u opts in
    let finish =
      λ (d : Context). (backstop u rt (flush_recorded_events rt (respond d status))).outbox in
    let start = set c Key.audit_runtime Value.runtime in
    let on : has_runtime start ≡ true = unfold has_runtime set in refl in
    let c' = set start Key.audit_recorded (Value.flag true) in
    let marked : get_bool c' Key.audit_recorded ≡ true = unfold get_bool set in refl in
    let empty : buffered c' ≡ [] = unfold buffered set in rw fresh in
    let e' = fill_in u c' e in
    elim (Bool-cases (is_empty e.outcome)) [
      | inl blank ↦ (
        stamp rt (complete status e'),
        ap finish (record_event-buffers u rt start e on named blank)
            ∙ ending_buffered u rt c' e' status marked empty,
        unfold stamp complete fill_in in ground arith,
        unfold stamp complete fill_in in ground arith,
        unfold stamp complete fill_in in ground arith,
      )
      | inr given ↦ (
        stamp rt e',
        ap finish (record_event-writes u rt start e on named given)
            ∙ ending_written u rt c' e' status marked empty,
        unfold stamp fill_in in ground arith,
        unfold stamp fill_in in ground arith,
        unfold stamp fill_in in ground arith,
      )
    ]
