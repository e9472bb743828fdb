-- ===== src/Sentry/Fields.antt =====
-- What one switch of the hook does with the fields of a log entry.
use prompt_sdk.Prelude.{
  ◌≡◌, inl, inr, refl, Bool, true, false, ◌&&◌, Option, none, some, List, [], ◌∷◌, Text, text_eq,
  text_eq_iff, if◌then◌else◌, arith, Option-cases,
}
use prompt_sdk.Sentry.{
  Handle, FieldValue, sentry_user, sentry_user_ptr, text, texts, error_value, Fields, SentryEvent,
  field, delete, is_error, is_user, is_text, is_texts, set_exception, set_user, set_transaction,
  set_fingerprint, with_fields, promote,
}

field-delete :
    (k j : Text) (fs : Fields) → field k (delete j fs) ≡ (if text_eq j k then none else field k fs)
unfolding field delete
field-delete k j [] = ground arith
field-delete k j ((i, v) ∷ fs) =
    ground (arith, text_eq_iff i j, text_eq_iff i k, text_eq_iff j k, field-delete k j fs)

-- What a switch leaves of the value under `k`.
abbrev pub left : Text → (FieldValue → Bool) → Text → Option FieldValue → Option FieldValue
left j test k none = none
left j test k (some v) = if text_eq j k && test v then none else some v

-- The value that a switch moves.
abbrev pub moved : (FieldValue → Bool) → Option FieldValue → Option FieldValue
moved test none = none
moved test (some v) = if test v then some v else none

abbrev pub placed :
    (FieldValue → SentryEvent → Option SentryEvent)
    → Option FieldValue
    → SentryEvent
    → Option SentryEvent
placed place none ev = some ev
placed place (some v) ev = place v ev

-- What a switch leaves of the fields, by the value that it moves.
abbrev pub rest : Text → Fields → Option FieldValue → Fields
rest j fs none = fs
rest j fs (some v) = delete j fs

module _ (j : Text) (test : FieldValue → Bool)
    (place : FieldValue → SentryEvent → Option SentryEvent) where
  pub promote_lem :
      (fs : Fields) (ev : SentryEvent)
      → promote j test place fs ev
        ≡ with_fields
            (rest j fs (moved test (field j fs)))
            (placed place (moved test (field j fs)) ev)
  unfolding promote
  promote_lem fs ev = elim (Option-cases (field j fs)) [
    | inl e ↦ ground arith
    | inr (v, e) ↦ ground arith
  ]

pub field-rest :
    (j k : Text) (test : FieldValue → Bool) (fs : Fields)
    → field k (rest j fs (moved test (field j fs))) ≡ left j test k (field k fs)
field-rest j k test fs = ground (arith, text_eq_iff j k, field-delete k j fs)

pub left-other :
    (j k : Text) (test : FieldValue → Bool) (o : Option FieldValue)
    → text_eq j k ≡ false
    → left j test k o ≡ o
left-other j k test none h = refl
left-other j k test (some v) h = ground arith

-- What the event has of the value of a field, if that has a place of its own.
abbrev pub error_of : Option FieldValue → Option Handle
error_of (some (error_value e)) = some e
error_of _ = none

abbrev pub user_of : Option FieldValue → Option Handle
user_of (some (sentry_user u)) = some u
user_of (some (sentry_user_ptr u)) = u
user_of _ = none

abbrev pub transaction_of : Option FieldValue → Text
transaction_of (some (text t)) = t
transaction_of _ = []

abbrev pub fingerprint_of : Option FieldValue → List Text
fingerprint_of (some (texts ts)) = ts
fingerprint_of _ = []

pub transaction_step :
    (o : Option FieldValue) (ev : SentryEvent)
    → ev.transaction ≡ []
    → placed set_transaction (moved is_text o) ev
      ≡ some (record ev { transaction = transaction_of o })
unfolding set_transaction is_text
transaction_step o ev h = ground arith

pub fingerprint_step :
    (o : Option FieldValue) (ev : SentryEvent)
    → ev.fingerprint ≡ []
    → placed set_fingerprint (moved is_texts o) ev
      ≡ some (record ev { fingerprint = fingerprint_of o })
unfolding set_fingerprint is_texts
fingerprint_step o ev h = ground arith

module _ (raises : Handle → Bool) where
  -- An error with which `SetException` panics.
  abbrev pub is_raising : Option FieldValue → Bool
  is_raising (some (error_value e)) = raises e
  is_raising _ = false

  pub exception_step :
      (o : Option FieldValue) (ev : SentryEvent)
      → ev.exception ≡ none
      → placed (set_exception raises) (moved is_error o) ev
        ≡ (if is_raising o then none else some (record ev { exception = error_of o }))
  unfolding set_exception is_error
  exception_step o ev h = ground arith

-- A pointer to a user that is nil.
abbrev pub is_nil_user : Option FieldValue → Bool
is_nil_user (some (sentry_user_ptr none)) = true
is_nil_user _ = false

pub user_step :
    (o : Option FieldValue) (ev : SentryEvent)
    → ev.user ≡ none
    → placed set_user (moved is_user o) ev
      ≡ (if is_nil_user o then none else some (record ev { user = user_of o }))
unfolding set_user is_user
user_step o ev h = ground arith
