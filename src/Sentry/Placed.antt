-- ===== src/Sentry/Placed.antt =====
-- What the five switches of the hook do together.
use prompt_sdk.Prelude.{
  Bool-cases, inl, inr, ◌≡◌, refl, ◌∙◌, ap, Bool, ◌&&◌, ◌||◌, Option, none, some, Text, codes,
  text_eq, if◌then◌else◌, arith,
}
use prompt_sdk.Sentry.{
  Handle, FieldValue, Fields, Entry, SentryEvent, field, is_request, is_error, is_user, is_text,
  is_texts, new_event, promote_all,
}
use prompt_sdk.Sentry.Fields.{
  left, field-rest, left-other, error_of, user_of, transaction_of, fingerprint_of, is_nil_user,
  is_raising,
}
use prompt_sdk.Sentry.Switches.{
  after_request, after_error, after_user, after_transaction, after_fingerprint, request_of,
  is_unreadable, switch_request, switch_error, switch_user, switch_transaction, switch_fingerprint,
}

-- The fields that the event has a place for.
abbrev pub has_place : Text → FieldValue → Bool
has_place k v =
    (text_eq (codes "request") k && is_request v)
    || (text_eq (codes "error") k && is_error v)
    || (text_eq (codes "user") k && is_user v)
    || (text_eq (codes "transaction") k && is_text v)
    || (text_eq (codes "fingerprint") k && is_texts v)

abbrev pub remaining : Fields → Fields
remaining fs = after_fingerprint (after_transaction (after_user (after_error (after_request fs))))

abbrev pub left_over : Text → Option FieldValue → Option FieldValue
left_over k none = none
left_over k (some v) = if has_place k v then none else some v

all_left :
    (k : Text) (o : Option FieldValue)
    → left (codes "fingerprint") is_texts k (
        left (codes "transaction") is_text k (
          left
            (codes "user")
            is_user
            k
            (left (codes "error") is_error k (left (codes "request") is_request k o))))
      ≡ left_over k o
all_left k none = refl
all_left k (some v) = ground arith

pub field-remaining : (k : Text) (fs : Fields) → field k (remaining fs) ≡ left_over k (field k fs)
field-remaining k fs =
    let a = after_request fs in
    let b = after_error a in
    let c = after_user b in
    let d = after_transaction c in
    field-rest (codes "fingerprint") k is_texts d
    ∙ ap (left (codes "fingerprint") is_texts k) (
        field-rest (codes "transaction") k is_text c
        ∙ ap (left (codes "transaction") is_text k) (
            field-rest (codes "user") k is_user b
            ∙ ap (left (codes "user") is_user k) (
                field-rest (codes "error") k is_error a
                ∙ ap (left (codes "error") is_error k)
                    (field-rest (codes "request") k is_request fs))))
    ∙ all_left k (field k fs)

error_kept : (fs : Fields) → field (codes "error") (after_request fs) ≡ field (codes "error") fs
unfolding text_eq
error_kept fs =
    field-rest (codes "request") (codes "error") is_request fs
    ∙ left-other (codes "request") (codes "error") is_request (field (codes "error") fs) refl

user_kept :
    (fs : Fields) → field (codes "user") (after_error (after_request fs)) ≡ field (codes "user") fs
unfolding text_eq
user_kept fs =
    field-rest (codes "error") (codes "user") is_error (after_request fs)
    ∙ left-other (codes "error") (codes "user") is_error _ refl
    ∙ field-rest (codes "request") (codes "user") is_request fs
    ∙ left-other (codes "request") (codes "user") is_request _ refl

transaction_kept :
    (fs : Fields)
    → field (codes "transaction") (after_user (after_error (after_request fs)))
      ≡ field (codes "transaction") fs
unfolding text_eq
transaction_kept fs =
    field-rest (codes "user") (codes "transaction") is_user (after_error (after_request fs))
    ∙ left-other (codes "user") (codes "transaction") is_user _ refl
    ∙ field-rest (codes "error") (codes "transaction") is_error (after_request fs)
    ∙ left-other (codes "error") (codes "transaction") is_error _ refl
    ∙ field-rest (codes "request") (codes "transaction") is_request fs
    ∙ left-other (codes "request") (codes "transaction") is_request _ refl

fingerprint_kept :
    (fs : Fields)
    → field (codes "fingerprint") (after_transaction (after_user (after_error (after_request fs))))
      ≡ field (codes "fingerprint") fs
unfolding text_eq
fingerprint_kept fs =
    let a = after_request fs in
    let b = after_error a in
    field-rest (codes "transaction") (codes "fingerprint") is_text (after_user b)
    ∙ left-other (codes "transaction") (codes "fingerprint") is_text _ refl
    ∙ field-rest (codes "user") (codes "fingerprint") is_user b
    ∙ left-other (codes "user") (codes "fingerprint") is_user _ refl
    ∙ field-rest (codes "error") (codes "fingerprint") is_error a
    ∙ left-other (codes "error") (codes "fingerprint") is_error _ refl
    ∙ field-rest (codes "request") (codes "fingerprint") is_request fs
    ∙ left-other (codes "request") (codes "fingerprint") is_request _ refl

module _ (new_request : Option Handle → Option Handle) (raises : Handle → Bool)
    (sprint : FieldValue → Text) where
  -- The event without its tags.
  abbrev pub placed_event : Entry → SentryEvent
  placed_event e = record (new_event e) {
    request = request_of new_request raises sprint (field (codes "request") e.fields);
    exception = error_of (field (codes "error") e.fields);
    user = user_of (field (codes "user") e.fields);
    transaction = transaction_of (field (codes "transaction") e.fields);
    fingerprint = fingerprint_of (field (codes "fingerprint") e.fields);
  }

  pub promote_all_lem :
      (e : Entry)
      → promote_all new_request raises sprint e.fields (new_event e) ≡ (
          if is_unreadable new_request raises sprint (field (codes "request") e.fields)
            || is_raising raises (field (codes "error") e.fields)
            || is_nil_user (field (codes "user") e.fields)
          then none
          else some (remaining e.fields, placed_event e))
  unfolding promote_all new_event
  promote_all_lem e =
      let fs = e.fields in
      let a = after_request fs in
      let b = after_error a in
      let c = after_user b in
      let d = after_transaction c in
      let v : SentryEvent = new_event e in
      let v₁ : SentryEvent = record v {
        request = request_of new_request raises sprint (field (codes "request") fs);
      } in
      let v₂ : SentryEvent = record v₁ { exception = error_of (field (codes "error") a) } in
      let v₃ : SentryEvent = record v₂ { user = user_of (field (codes "user") b) } in
      let v₄ : SentryEvent = record v₃ {
        transaction = transaction_of (field (codes "transaction") c);
      } in
      let asked = switch_request new_request raises sprint fs v refl in
      elim (Bool-cases (is_unreadable new_request raises sprint (field (codes "request") fs))) [
        | inl unreadable ↦ ground (arith, asked)
        | inr readable ↦ elim (Bool-cases (is_raising raises (field (codes "error") fs))) [
          | inl raising ↦ ground (arith, asked, switch_error raises a v₁ refl, error_kept fs)
          | inr quiet ↦ ground (
            arith,
            asked,
            switch_error raises a v₁ refl,
            switch_user b v₂ refl,
            switch_transaction c v₃ refl,
            switch_fingerprint d v₄ refl,
            error_kept fs,
            user_kept fs,
            transaction_kept fs,
            fingerprint_kept fs,
          )
        ]
      ]
