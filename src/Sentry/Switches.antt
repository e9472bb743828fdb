-- ===== src/Sentry/Switches.antt =====
-- What each switch of the hook does.
use prompt_sdk.Prelude.{
  ◌≡◌, ◌∙◌, ap, Bool, true, false, Option, none, some, [], Text, codes, if◌then◌else◌, arith,
}
use prompt_sdk.Sentry.{
  Handle, FieldValue, http_request, sentry_request, sentry_request_ptr, Fields, SentryEvent, field,
  is_request, is_error, is_user, is_text, is_texts, set_exception, set_user, set_transaction,
  set_fingerprint, set_request, with_fields, promote,
}
use prompt_sdk.Sentry.Fields.{
  moved, placed, rest, exception_step, transaction_step, fingerprint_step, user_step, promote_lem,
  is_raising, error_of, user_of, transaction_of, fingerprint_of, is_nil_user,
}

-- The fields that are left after the first switches, one by one.
abbrev pub after_request : Fields → Fields
after_request fs = rest (codes "request") fs (moved is_request (field (codes "request") fs))

abbrev pub after_error : Fields → Fields
after_error fs = rest (codes "error") fs (moved is_error (field (codes "error") fs))

abbrev pub after_user : Fields → Fields
after_user fs = rest (codes "user") fs (moved is_user (field (codes "user") fs))

abbrev pub after_transaction : Fields → Fields
after_transaction fs =
    rest (codes "transaction") fs (moved is_text (field (codes "transaction") fs))

abbrev pub after_fingerprint : Fields → Fields
after_fingerprint fs =
    rest (codes "fingerprint") fs (moved is_texts (field (codes "fingerprint") fs))

pub switch_error :
    (raises : Handle → Bool) (fs : Fields) (ev : SentryEvent)
    → ev.exception ≡ none
    → promote (codes "error") is_error (set_exception raises) fs ev ≡ (
        if is_raising raises (field (codes "error") fs)
        then none
        else some (after_error fs, record ev { exception = error_of (field (codes "error") fs) }))
switch_error raises fs ev h =
    promote_lem (codes "error") is_error (set_exception raises) fs ev
    ∙ ap (with_fields (after_error fs)) (exception_step raises (field (codes "error") fs) ev h)
    ∙ ground arith

pub switch_user :
    (fs : Fields) (ev : SentryEvent)
    → ev.user ≡ none
    → promote (codes "user") is_user set_user fs ev ≡ (
        if is_nil_user (field (codes "user") fs)
        then none
        else some (after_user fs, record ev { user = user_of (field (codes "user") fs) }))
switch_user fs ev h =
    promote_lem (codes "user") is_user set_user fs ev
    ∙ ap (with_fields (after_user fs)) (user_step (field (codes "user") fs) ev h)
    ∙ ground arith

pub switch_transaction :
    (fs : Fields) (ev : SentryEvent)
    → ev.transaction ≡ []
    → promote (codes "transaction") is_text set_transaction fs ev
      ≡ some (
        after_transaction fs,
        record ev { transaction = transaction_of (field (codes "transaction") fs) },
      )
switch_transaction fs ev h =
    promote_lem (codes "transaction") is_text set_transaction fs ev
    ∙ ap (with_fields (after_transaction fs))
        (transaction_step (field (codes "transaction") fs) ev h)

pub switch_fingerprint :
    (fs : Fields) (ev : SentryEvent)
    → ev.fingerprint ≡ []
    → promote (codes "fingerprint") is_texts set_fingerprint fs ev
      ≡ some (
        after_fingerprint fs,
        record ev { fingerprint = fingerprint_of (field (codes "fingerprint") fs) },
      )
switch_fingerprint fs ev h =
    promote_lem (codes "fingerprint") is_texts set_fingerprint fs ev
    ∙ ap (with_fields (after_fingerprint fs))
        (fingerprint_step (field (codes "fingerprint") fs) ev h)

module _ (new_request : Option Handle → Option Handle) (raises : Handle → Bool)
    (sprint : FieldValue → Text) where
  abbrev pub request_of : Option FieldValue → Option Handle
  request_of (some (http_request r)) = new_request r
  request_of (some (sentry_request r)) = some r
  request_of (some (sentry_request_ptr r)) = r
  request_of _ = none

  abbrev is_none : Option Handle → Bool
  is_none none = true
  is_none (some r) = false

  -- A request that `sentry.NewRequest` cannot read.
  abbrev pub is_unreadable : Option FieldValue → Bool
  is_unreadable (some (http_request r)) = is_none (new_request r)
  is_unreadable _ = false

  request_step :
      (o : Option FieldValue) (ev : SentryEvent)
      → ev.request ≡ none
      → placed (set_request new_request raises sprint) (moved is_request o) ev
        ≡ (if is_unreadable o then none else some (record ev { request = request_of o }))
  unfolding set_request is_request
  request_step o ev h = ground arith

  pub switch_request :
      (fs : Fields) (ev : SentryEvent)
      → ev.request ≡ none
      → promote (codes "request") is_request (set_request new_request raises sprint) fs ev ≡ (
          if is_unreadable (field (codes "request") fs)
          then none
          else some
              (after_request fs, record ev { request = request_of (field (codes "request") fs) }))
  switch_request fs ev h =
      promote_lem (codes "request") is_request (set_request new_request raises sprint) fs ev
      ∙ ap (with_fields (after_request fs)) (request_step (field (codes "request") fs) ev h)
      ∙ ground arith
