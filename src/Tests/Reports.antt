-- ===== src/Tests/Reports.antt =====
-- The theorems on Sentry, the registration of validators and the mocks at concrete inputs.
use prompt_sdk.Prelude.{
  ◌==◌, Bool, ◌≡◌, ◌↔◌, refl, Bool, true, false, none, some, Option, [], ◌∷◌, Text, Unicode, codes,
  text_eq, if◌then◌else◌,
}
use prompt_sdk.Sentry.{
  Handle, FieldValue, Entry, SentryEvent, text, sentry_user_ptr, error_value, error,
  entry_to_sentry_event, field, promote_all, promote, is_error, is_user, is_text, set_exception,
  set_transaction, as_tags, delete, new_event, info, warn, fatal, panic,
}
use prompt_sdk.Sentry.Events.{
  IsEventOf, Panics, entry_to_sentry_event-IsEventOf, entry_to_sentry_event-Panics_iff,
}
use prompt_sdk.Sentry.Init.{
  ClientOptions, client_options, init_sentry, library_defaults, IsWithoutPii, restricted, SendsPii,
  init_sentry-restricted,
}
use prompt_sdk.Validator.{tum_id_validator, matriculation_number_validator}
use prompt_sdk.Validator.Registry.{
  Registries, init_validators, register_validation, validation_of, register_validation-gin,
}

abbrev reads : Option Handle → Option Handle
reads r = r

-- The error 13 is a nil pointer whose method reads a field.
abbrev nil_error : Handle → Bool
nil_error e = e == 13

abbrev shows : FieldValue → Text
shows v = codes "?"

abbrev entry : Entry
entry = record {
  fields =
      (codes "error", error_value 7)
      ∷ (codes "transaction", text (codes "GET /"))
      ∷ (codes "user", text (codes "ab12cde"))
      ∷ [];
  level = error;
  message = codes "failed";
  time = 3;
}

abbrev event : SentryEvent
event = record (new_event entry) {
  exception = some 7;
  transaction = codes "GET /";
  tags = (codes "user", codes "?") ∷ [];
}

event_made : entry_to_sentry_event reads nil_error shows entry ≡ some event
unfolding entry_to_sentry_event promote_all promote field is_error is_user is_text set_exception
    set_transaction as_tags delete new_event text_eq
event_made = refl

entry_to_sentry_event-IsEventOf_example : IsEventOf reads nil_error shows entry event
entry_to_sentry_event-IsEventOf_example =
    entry_to_sentry_event-IsEventOf reads nil_error shows entry event event_made

abbrev nil_user_entry : Entry
nil_user_entry = record entry { fields = (codes "user", sentry_user_ptr none) ∷ [] }

entry_to_sentry_event-Panics_iff_example :
    (entry_to_sentry_event reads nil_error shows nil_user_entry ≡ none)
    ↔ Panics reads nil_error shows nil_user_entry
entry_to_sentry_event-Panics_iff_example =
    entry_to_sentry_event-Panics_iff reads nil_error shows nil_user_entry

abbrev pii_env : Text → Option Text
pii_env key = if text_eq key (codes "SENTRY_SEND_DEFAULT_PII") then some (codes "yes") else none

abbrev inits : ClientOptions → Bool
inits o = true

init_sentry-restricted_example :
    (((client_options pii_env inits true (codes "https://dsn") []).data_collection
        ≡ library_defaults)
      ↔ SendsPii pii_env inits true)
    × (((client_options pii_env inits true (codes "https://dsn") []).data_collection ≡ restricted)
        ↔ (¬ SendsPii pii_env inits true))
    × ((¬ SendsPii pii_env inits true)
        ↔ IsWithoutPii (client_options pii_env inits true (codes "https://dsn") []).data_collection)
unfolding init_sentry
init_sentry-restricted_example =
    init_sentry-restricted pii_env inits true (codes "https://dsn") []
      (client_options pii_env inits true (codes "https://dsn") []) (info ∷ warn ∷ [])
      (error ∷ fatal ∷ panic ∷ []) refl

abbrev ascii : Unicode
ascii = record { lower_unicode = λ s. s; trim_unicode = λ s. s; is_digit_wide = λ c. false }

abbrev takes : Text → Bool
takes tag = true

abbrev any_login : Text → Bool
any_login login = true

abbrev at_start : Registries
at_start = record {
  own =
      (codes "universityLogin", tum_id_validator)
      ∷ (codes "matriculationNumber", matriculation_number_validator ascii)
      ∷ [];
  gin =
      (codes "universityLogin", tum_id_validator)
      ∷ (codes "matriculationNumber", matriculation_number_validator ascii)
      ∷ [];
}

abbrev overridden : Registries
overridden = record at_start { own = (codes "universityLogin", any_login) ∷ at_start.own }

gin_keeps_its_validator :
    validation_of (codes "universityLogin") overridden.gin ≡ some tum_id_validator
unfolding init_validators register_validation text_eq
gin_keeps_its_validator =
    (register_validation-gin ascii takes true (codes "universityLogin")
      (codes "matriculationNumber") any_login at_start overridden refl refl refl refl).2
