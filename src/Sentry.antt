-- ===== src/Sentry.antt =====
-- utils/sentryEventHook.go and utils/initSentry.go: events from log entries, and the set-up of
-- Sentry. A value of a library's type is known by a number. How the libraries print a value and
-- read a request are parameters.
pub mod Fields
pub mod Switches
pub mod Placed
pub mod Events
pub mod Init
use prompt_sdk.Prelude.{
  ℕ, Bool, true, false, Option, none, some, List, [], ◌∷◌, Text, codes, text_eq, if◌then◌else◌,
}

abbrev pub Handle : Type 0
Handle = ℕ

-- The value of a field, with its dynamic type; a pointer may be nil.
pub data FieldValue : Type 0 where
  http_request : Option Handle → FieldValue
  sentry_request : Handle → FieldValue
  sentry_request_ptr : Option Handle → FieldValue
  error_value : Handle → FieldValue
  sentry_user : Handle → FieldValue
  sentry_user_ptr : Option Handle → FieldValue
  text : Text → FieldValue
  texts : List Text → FieldValue
  other : Handle → FieldValue

pub data Level : Type 0 where
  trace debug info warn error fatal panic : Level

pub data SentryLevel : Type 0 where
  level_error level_fatal : SentryLevel

-- `entry.Data`, a map, is the list of its entries.
abbrev pub Fields : Type 0
Fields = List (Text × FieldValue)

pub record Entry : Type 0 where
  pub fields : Fields
  pub level : Level
  pub message : Text
  pub time : ℕ

-- What the hook sets of an event.
pub record SentryEvent : Type 0 where
  pub level : Option SentryLevel
  pub message : Text
  pub timestamp : ℕ
  pub logger : Text
  pub request : Option Handle
  pub exception : Option Handle
  pub user : Option Handle  -- none for the zero value
  pub transaction : Text
  pub fingerprint : List Text
  pub tags : List (Text × Text)

-- `logrusToSentryLevel[level]`, where a missing level gives the empty one
unfoldable pub logrus_to_sentry_level : Level → Option SentryLevel
logrus_to_sentry_level error = some level_error
logrus_to_sentry_level fatal = some level_fatal
logrus_to_sentry_level panic = some level_fatal
logrus_to_sentry_level _ = none

unfoldable pub field {ℓ} : {V : Type ℓ} → Text → List (Text × V) → Option V
field k [] = none
field k ((j, v) ∷ m) = if text_eq j k then some v else field k m

-- `delete(fields, k)`
unfoldable pub delete : Text → Fields → Fields
delete k [] = []
delete k ((j, v) ∷ m) = if text_eq j k then delete k m else (j, v) ∷ delete k m

unfoldable pub is_request : FieldValue → Bool
is_request (http_request r) = true
is_request (sentry_request r) = true
is_request (sentry_request_ptr r) = true
is_request _ = false

unfoldable pub is_error : FieldValue → Bool
is_error (error_value e) = true
is_error _ = false

unfoldable pub is_user : FieldValue → Bool
is_user (sentry_user u) = true
is_user (sentry_user_ptr u) = true
is_user _ = false

unfoldable pub is_text : FieldValue → Bool
is_text (text t) = true
is_text _ = false

unfoldable pub is_texts : FieldValue → Bool
is_texts (texts ts) = true
is_texts _ = false

-- `raises e` is whether `SetException` panics with `e`: it calls the methods of `e` and of what
-- it wraps, which are the application's, and a nil pointer may be one of them.
unfoldable pub set_exception : (Handle → Bool) → FieldValue → SentryEvent → Option SentryEvent
set_exception raises (error_value e) ev =
    if raises e then none else some (record ev { exception = some e })
set_exception raises _ ev = some ev

-- A nil pointer to a user is dereferenced.
unfoldable pub set_user : FieldValue → SentryEvent → Option SentryEvent
set_user (sentry_user u) ev = some (record ev { user = some u })
set_user (sentry_user_ptr (some u)) ev = some (record ev { user = some u })
set_user (sentry_user_ptr none) ev = none
set_user _ ev = some ev

unfoldable pub set_transaction : FieldValue → SentryEvent → Option SentryEvent
set_transaction (text t) ev = some (record ev { transaction = t })
set_transaction _ ev = some ev

unfoldable pub set_fingerprint : FieldValue → SentryEvent → Option SentryEvent
set_fingerprint (texts ts) ev = some (record ev { fingerprint = ts })
set_fingerprint _ ev = some ev

abbrev pub Promotion : Type 0
Promotion = Option (Fields × SentryEvent)

abbrev pub with_fields : Fields → Option SentryEvent → Promotion
with_fields fs none = none
with_fields fs (some ev) = some (fs, ev)

-- One switch: a field with a place of its own in the event moves there. `none` is a panic.
unfoldable pub promote :
    Text
    → (FieldValue → Bool)
    → (FieldValue → SentryEvent → Option SentryEvent)
    → Fields
    → SentryEvent
    → Promotion
promote k test place fs ev = elim (field k fs) [
  | none ↦ some (fs, ev)
  | some v ↦ if test v then with_fields (delete k fs) (place v ev) else some (fs, ev)
]

infixl 5 ◌>>=◌
abbrev pub ◌>>=◌ : Promotion → (Fields × SentryEvent → Promotion) → Promotion
none >>= f = none
some p >>= f = f p

unfoldable pub new_event : Entry → SentryEvent
new_event e = record {
  level = logrus_to_sentry_level e.level;
  message = e.message;
  timestamp = e.time;
  logger = codes "logrus";
  request = none;
  exception = none;
  user = none;
  transaction = [];
  fingerprint = [];
  tags = [];
}

-- `new_request` is `sentry.NewRequest`, with `none` where it panics; `sprint` is `fmt.Sprint`,
-- which recovers from a panic of the value's own method.
module _ (new_request : Option Handle → Option Handle) (raises : Handle → Bool)
    (sprint : FieldValue → Text) where
  abbrev read_request : Option Handle → SentryEvent → Option SentryEvent
  read_request none ev = none
  read_request (some r) ev = some (record ev { request = some r })

  unfoldable pub set_request : FieldValue → SentryEvent → Option SentryEvent
  set_request (http_request r) ev = read_request (new_request r) ev
  set_request (sentry_request r) ev = some (record ev { request = some r })
  set_request (sentry_request_ptr r) ev = some (record ev { request = r })
  set_request _ ev = some ev

  unfoldable pub as_tags : Fields → List (Text × Text)
  as_tags [] = []
  as_tags ((k, v) ∷ m) = (k, sprint v) ∷ as_tags m

  -- the five switches, in order
  unfoldable pub promote_all : Fields → SentryEvent → Promotion
  unfolding promote
  promote_all fs ev =
      promote (codes "request") is_request set_request fs ev
      >>= (λ p. promote (codes "error") is_error (set_exception raises) p.0 p.1)
      >>= (λ p. promote (codes "user") is_user set_user p.0 p.1)
      >>= (λ p. promote (codes "transaction") is_text set_transaction p.0 p.1)
      >>= (λ p. promote (codes "fingerprint") is_texts set_fingerprint p.0 p.1)

  unfoldable pub entry_to_sentry_event : Entry → Option SentryEvent
  unfolding promote_all
  entry_to_sentry_event e = elim (promote_all e.fields (new_event e)) [
    | none ↦ none
    | some (fs, ev) ↦ some (record ev { tags = as_tags fs })
  ]
