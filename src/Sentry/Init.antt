-- ===== src/Sentry/Init.antt =====
-- `InitSentry` and `sentryDataCollection` of utils/initSentry.go.
use prompt_sdk.Prelude.{
  ◌⊎◌, subst, ap, text_eq_iff, ◌≡◌, ◌≢◌, ◌↔◌, inl, inr, refl, sym, ◌∙◌, Bool, true, false, Option,
  none, some, List, [], ◌∷◌, Text, codes, text_eq, contains, is_empty, if◌then◌else◌, arith,
  Option-cases, Bool-cases,
}
use prompt_sdk.DatabaseUrl.{get_env}
use prompt_sdk.Sentry.{Level, info, warn, error, fatal, panic}

abbrev pub true_texts : List Text
true_texts = codes "1" ∷ codes "t" ∷ codes "T" ∷ codes "TRUE" ∷ codes "true" ∷ codes "True" ∷ []

abbrev pub false_texts : List Text
false_texts = codes "0" ∷ codes "f" ∷ codes "F" ∷ codes "FALSE" ∷ codes "false" ∷ codes "False" ∷ []

-- `strconv.ParseBool`
unfoldable pub parse_bool : Text → Option Bool
parse_bool s =
    if contains true_texts s then some true else if contains false_texts s then some false else none

-- A part that is not set is left to the default of the library, which has denied terms of its own.
pub record DataCollection : Type 0 where
  pub user_info : Option Bool
  pub cookies_off : Bool
  pub request_headers_denied : List Text
  pub response_headers_denied : List Text
  pub http_bodies : Option (List Text)
  pub query_params_denied : List Text

unfoldable pub pii_deny_list : List Text
pii_deny_list = codes "forwarded" ∷ codes "-ip" ∷ codes "remote-" ∷ codes "via" ∷ codes "-user" ∷ []

abbrev pub library_defaults : DataCollection
library_defaults = record {
  user_info = none;
  cookies_off = false;
  request_headers_denied = [];
  response_headers_denied = [];
  http_bodies = none;
  query_params_denied = [];
}

abbrev pub restricted : DataCollection
restricted = record {
  user_info = some false;
  cookies_off = true;
  request_headers_denied = pii_deny_list;
  response_headers_denied = pii_deny_list;
  http_bodies = some [];
  query_params_denied = pii_deny_list;
}

unfoldable pub sentry_data_collection : Bool → DataCollection
sentry_data_collection send_default_pii = if send_default_pii then library_defaults else restricted

pub record ClientOptions : Type 0 where
  pub dsn : Text
  pub release : Text
  pub environment : Text
  pub debug : Bool
  pub attach_stacktrace : Bool
  pub enable_tracing : Bool
  pub data_collection : DataCollection

-- `client_missing` has whether the error of ParseBool is returned.
pub data InitOutcome : Type 0 where
  skipped init_failed : InitOutcome
  client_missing : Bool → InitOutcome
  hooked : ClientOptions → List Level → List Level → InitOutcome

unfoldable pub first_release : List Text → Text
first_release [] = []
first_release (r ∷ rs) = r

unfoldable pub or_false : Option Bool → Bool
or_false none = false
or_false (some b) = b

parse_bool_iff : (s : Text) → (or_false (parse_bool s) ≡ true) ↔ (contains true_texts s ≡ true)
unfolding or_false parse_bool
parse_bool_iff s = ground arith

default_is_false : contains true_texts (codes "false") ≡ false
unfolding contains text_eq
default_is_false = refl

-- The terms of the names that can hold an address or a user.
abbrev pub IsPersonal : Text → Type 0
IsPersonal t =
    (t ≡ codes "forwarded")
    ⊎ (t ≡ codes "-ip")
    ⊎ (t ≡ codes "remote-")
    ⊎ (t ≡ codes "via")
    ⊎ (t ≡ codes "-user")

-- What is left out without personal data: the user, cookies and bodies, and the headers and
-- queries whose names have one of these terms.
pub record IsWithoutPii (d : DataCollection) : Type 0 where
  pub no_user : d.user_info ≡ some false
  pub no_cookies : d.cookies_off ≡ true
  pub no_bodies : d.http_bodies ≡ some []
  pub in_requests : (t : Text) → IsPersonal t → contains d.request_headers_denied t ≡ true
  pub in_responses : (t : Text) → IsPersonal t → contains d.response_headers_denied t ≡ true
  pub in_queries : (t : Text) → IsPersonal t → contains d.query_params_denied t ≡ true

denied : (t : Text) → IsPersonal t → contains pii_deny_list t ≡ true
unfolding contains pii_deny_list
denied t h = ground (
  arith,
  h,
  text_eq_iff (codes "forwarded") t,
  text_eq_iff (codes "-ip") t,
  text_eq_iff (codes "remote-") t,
  text_eq_iff (codes "via") t,
  text_eq_iff (codes "-user") t,
)

restricted-IsWithoutPii : IsWithoutPii restricted
restricted-IsWithoutPii = record {
  no_user = refl;
  no_cookies = refl;
  no_bodies = refl;
  in_requests = denied;
  in_responses = denied;
  in_queries = denied;
}

module _ (lookup_env : Text → Option Text) (init_succeeds : ClientOptions → Bool)
    (has_client : Bool) where
  unfoldable pub pii_setting : Option Bool
  unfolding parse_bool
  pii_setting = parse_bool (get_env lookup_env (codes "SENTRY_SEND_DEFAULT_PII") (codes "false"))

  unfoldable pub client_options : Text → List Text → ClientOptions
  client_options sentry_dsn releases = record {
    dsn = sentry_dsn;
    release = first_release releases;
    environment = get_env lookup_env (codes "ENVIRONMENT") (codes "development");
    debug = false;
    attach_stacktrace = true;
    enable_tracing = true;
    data_collection = sentry_data_collection (or_false pii_setting);
  }

  unfoldable pub is_invalid : Option Bool → Bool
  is_invalid none = true
  is_invalid (some b) = false

  -- the levels of the two hooks: structured logs, and events
  unfoldable pub init_sentry : Text → List Text → InitOutcome
  init_sentry sentry_dsn releases =
      if is_empty sentry_dsn
      then skipped
      else if init_succeeds (client_options sentry_dsn releases)
      then (if has_client
          then hooked (client_options sentry_dsn releases) (info ∷ warn ∷ [])
              (error ∷ fatal ∷ panic ∷ [])
          else client_missing (is_invalid pii_setting))
      else init_failed

  -- The setting is one of the six texts for true.
  abbrev pub SendsPii : Type 0
  SendsPii =
      (v : Text) × (lookup_env (codes "SENTRY_SEND_DEFAULT_PII") ≡ some v)
      × (contains true_texts v ≡ true)

  pii_setting_iff : (or_false pii_setting ≡ true) ↔ SendsPii
  unfolding or_false pii_setting get_env
  pii_setting_iff = elim (Option-cases (lookup_env (codes "SENTRY_SEND_DEFAULT_PII"))) [
    | inl e ↦ (
      λ h. absurd (ground (arith, default_is_false, parse_bool_iff (codes "false"))),
      λ h. absurd (ground (arith, h.1)),
    )
    | inr (v, e) ↦ (
      λ h. (v, e, (parse_bool_iff v).0 (ground arith)),
      λ h.
          let same : h.0 ≡ v = ground (arith, h.1) in
          let holds = (parse_bool_iff v).1 (rw (← same) h.2) in ground arith,
    )
  ]

  collection_iff : (b : Bool) → (sentry_data_collection b ≡ library_defaults) ↔ (b ≡ true)
  unfolding sentry_data_collection
  collection_iff b = ground arith

  ne_restricted : library_defaults ≢ restricted
  ne_restricted h = ground arith

  collected :
      (sentry_dsn : Text) (releases : List Text) (o : ClientOptions) (logs events : List Level)
      → init_sentry sentry_dsn releases ≡ hooked o logs events
      → o.data_collection ≡ sentry_data_collection (or_false pii_setting)
  unfolding init_sentry client_options
  collected sentry_dsn releases o logs events h = ground arith

  -- Sentry, once it is started with its hooks, leaves what is collected to the library's defaults
  -- exactly if SENTRY_SEND_DEFAULT_PII is set to one of the six texts for true; otherwise, and only
  -- then, it has the restricted collection, and that is one without user information, cookies and
  -- bodies, which denies the terms for addresses and users in headers and queries.
  pub init_sentry-restricted :
      (sentry_dsn : Text) (releases : List Text) (o : ClientOptions) (logs events : List Level)
      → init_sentry sentry_dsn releases ≡ hooked o logs events
      → ((o.data_collection ≡ library_defaults) ↔ SendsPii)
        × ((o.data_collection ≡ restricted) ↔ (¬ SendsPii))
        × ((¬ SendsPii) ↔ IsWithoutPii o.data_collection)
  init_sentry-restricted sentry_dsn releases o logs events h =
      let e = collected sentry_dsn releases o logs events h in
      let same = collection_iff (or_false pii_setting) in
      let restricts : (¬ SendsPii) → o.data_collection ≡ restricted = λ away.
        elim (Bool-cases (or_false pii_setting)) [
          | inl f ↦ absurd (away (pii_setting_iff.0 f))
          | inr f ↦ e ∙ unfold sentry_data_collection in rw f
        ] in
      let keeps_defaults : SendsPii → o.data_collection ≡ library_defaults =
        λ k. e ∙ same.1 (pii_setting_iff.1 k) in
      (
        (λ k. pii_setting_iff.0 (same.0 (sym e ∙ k)), keeps_defaults),
        ((λ k s. ne_restricted (sym (keeps_defaults s) ∙ k)), restricts),
        (
          (λ away. subst IsWithoutPii (sym (restricts away)) restricted-IsWithoutPii),
          λ without s.
              let on : o.data_collection.cookies_off ≡ false =
                ap (λ d. d.cookies_off) (keeps_defaults s) in
              absurd (ground (arith, without.no_cookies, on)),
        ),
      )
