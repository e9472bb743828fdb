-- ===== src/Sentry/Events.antt =====
-- The event that the hook makes of a log entry.
use prompt_sdk.Prelude.{
  Bool, ◌≡◌, ◌↔◌, ◌⊎◌, inl, inr, refl, ◌∙◌, ap, true, ◌||◌, Option, none, some, [], ◌∷◌, Text,
  codes, arith, Bool-cases,
}
use prompt_sdk.Sentry.{
  Handle, FieldValue, Fields, Entry, SentryEvent, field, new_event, as_tags, entry_to_sentry_event,
  logrus_to_sentry_level,
}
use prompt_sdk.Sentry.Fields.{
  error_of, user_of, transaction_of, fingerprint_of, is_nil_user, is_raising,
}
use prompt_sdk.Sentry.Placed.{left_over, remaining, placed_event, field-remaining, promote_all_lem}
use prompt_sdk.Sentry.Switches.{request_of, is_unreadable}

module _ (new_request : Option Handle → Option Handle) (raises : Handle → Bool)
    (sprint : FieldValue → Text) where
  abbrev pub printed : Option FieldValue → Option Text
  printed none = none
  printed (some v) = some (sprint v)

  -- Each field of the entry is in one place of the event.
  pub record IsEventOf (e : Entry) (ev : SentryEvent) : Type 0 where
    pub tagged : (k : Text) → field k ev.tags ≡ printed (left_over k (field k e.fields))
    pub requested :
        ev.request ≡ request_of new_request raises sprint (field (codes "request") e.fields)
    pub raised : ev.exception ≡ error_of (field (codes "error") e.fields)
    pub attributed : ev.user ≡ user_of (field (codes "user") e.fields)
    pub within : ev.transaction ≡ transaction_of (field (codes "transaction") e.fields)
    pub grouped : ev.fingerprint ≡ fingerprint_of (field (codes "fingerprint") e.fields)
    pub said : ev.message ≡ e.message
    pub graded : ev.level ≡ logrus_to_sentry_level e.level

  field-as_tags :
      (k : Text) (fs : Fields)
      → field k (as_tags new_request raises sprint fs) ≡ printed (field k fs)
  unfolding field as_tags
  field-as_tags k [] = refl
  field-as_tags k ((j, v) ∷ fs) = ground (arith, field-as_tags k fs)

  placed_event-IsEventOf :
      (e : Entry)
      → IsEventOf e (record (placed_event new_request raises sprint e) {
        tags = as_tags new_request raises sprint (remaining e.fields);
      })
  unfolding new_event
  placed_event-IsEventOf e = record {
    tagged = λ k. field-as_tags k (remaining e.fields) ∙ ap printed (field-remaining k e.fields);
    requested = refl;
    raised = refl;
    attributed = refl;
    within = refl;
    grouped = refl;
    said = refl;
    graded = refl;
  }

  -- What makes the hook panic.
  abbrev pub Panics : Entry → Type 0
  Panics e =
      (is_unreadable new_request raises sprint (field (codes "request") e.fields) ≡ true)
      ⊎ (is_raising raises (field (codes "error") e.fields) ≡ true)
      ⊎ (is_nil_user (field (codes "user") e.fields) ≡ true)

  -- An event that the hook makes has each field of the entry in one place: a request, an error, a
  -- user, a transaction and a fingerprint under their own names and of the right type in the
  -- place of the event for it, and every other field as a tag under its name.
  pub entry_to_sentry_event-IsEventOf :
      (e : Entry) (ev : SentryEvent)
      → entry_to_sentry_event new_request raises sprint e ≡ some ev
      → IsEventOf e ev
  unfolding entry_to_sentry_event
  entry_to_sentry_event-IsEventOf e ev h =
      elim (Bool-cases (
        is_unreadable new_request raises sprint (field (codes "request") e.fields)
        || is_raising raises (field (codes "error") e.fields)
        || is_nil_user (field (codes "user") e.fields))) [
          | inl bad ↦ absurd (ground (arith, promote_all_lem new_request raises sprint e))
          | inr good ↦
              let same : record (placed_event new_request raises sprint e) {
                tags = as_tags new_request raises sprint (remaining e.fields);
              }
                  ≡ ev =
                ground (arith, promote_all_lem new_request raises sprint e) in
              rw (← same) (placed_event-IsEventOf e)
        ]

  -- The hook panics exactly for an entry whose request is one that the library cannot read, whose
  -- error is one that the library's SetException panics with, or whose user is a nil pointer.
  pub entry_to_sentry_event-Panics_iff :
      (e : Entry) → (entry_to_sentry_event new_request raises sprint e ≡ none) ↔ Panics e
  unfolding entry_to_sentry_event
  entry_to_sentry_event-Panics_iff e = ground (arith, promote_all_lem new_request raises sprint e)
