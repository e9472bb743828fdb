-- ===== src/Endpoints/DataExport.antt =====
-- promptTypes/privacyExport.go: the endpoint for data exports, past its two middlewares.
use prompt_sdk.Prelude.{
  ℕ, ◌≡◌, ◌≢◌, ◌⊎◌, inl, inr, refl, Bool, true, false, not, ◌&&◌, ◌||◌, Option, none, some, List,
  [], ◌∷◌, Text, codes, text_eq, text_eq_iff, Result, ok, err, Option-cases, Result-cases, arith,
  if◌then◌else◌, Unicode,
}
use prompt_sdk.Identity.{SubjectIdentifiers}
use prompt_sdk.Gin.{Key, Value, Context}
use prompt_sdk.Export.{
  Export, ZipEntry, Panic, new_export, is_empty_export, has_error, Upload, Uploaded, upload_to,
  close,
}
use prompt_sdk.Endpoints.Hosts.{is_allowed_host}

pub record UploadUrl : Type 0 where
  pub scheme : Text
  pub hostname : Text

-- What a request did: the status, the subject that the handler was called for, what was sent and
-- where, and the export once `Close` has run.
pub record Exported : Type 0 where
  pub status : ℕ
  pub called_for : Option SubjectIdentifiers
  pub sent : Option (List ZipEntry)
  pub sent_to : Option Text
  pub left : Option Export

abbrev pub refused : ℕ → Exported
refused status = record {
  status = status;
  called_for = none;
  sent = none;
  sent_to = none;
  left = none;
}

unfoldable pub is_local : Text → Bool
is_local host = text_eq host (codes "localhost") || text_eq host (codes "127.0.0.1")

unfoldable pub host_refusal : Unicode → List Text → Text → Option ℕ
host_refusal u [] hostname = none
host_refusal u (host ∷ more) hostname =
    if not (is_allowed_host u hostname (host ∷ more)) then some 403 else none

host_refusal-none :
    (u : Unicode) (hosts : List Text) (hostname : Text)
    → host_refusal u hosts hostname ≡ none
    → (hosts ≡ []) ⊎ (is_allowed_host u hostname hosts ≡ true)
unfolding host_refusal
host_refusal-none u [] hostname h = inl refl
host_refusal-none u (host ∷ more) hostname h = inr (ground arith)

-- The checks of the URL: the status of the refusal, if there is one.
unfoldable pub refusal : Unicode → List Text → Option UploadUrl → Option ℕ
refusal u hosts none = some 400
refusal u hosts (some url) =
    if not (text_eq url.scheme (codes "https")) && not (is_local url.hostname)
    then some 400
    else host_refusal u hosts url.hostname

-- The rest once the handler has returned: whether it did so without an error, and the export.
unfoldable pub finish : Text → Upload → SubjectIdentifiers → Export → Bool → Result Panic Exported
finish text up subject e handled =
    let done : ℕ → Result Panic Exported = λ status. ok (record {
      status = status;
      called_for = some subject;
      sent = none;
      sent_to = none;
      left = some (close e);
    }) in
    if not handled || has_error e
    then done 500
    else if is_empty_export e
    then done 204
    else elim (upload_to text up e) [
      | err p ↦ err p
      | ok r ↦ ok (record {
        status = elim r.failure [ none ↦ 200 | some _ ↦ 500 ];
        called_for = some subject;
        sent = r.sent;
        sent_to = r.sent_to;
        left = some (close r.export);
      })
    ]

-- The export that a service's handler fills: its panics, and whether it returned no error.
abbrev pub Filler : Type 0
Filler = SubjectIdentifiers → Export → Result Panic (Export × Bool)

unfoldable pub subject_of : Context → Option SubjectIdentifiers
subject_of c = elim (c.keys Key.subject_identifiers) [ some (Value.subject s) ↦ some s | _ ↦ none ]

-- What is sent goes to the URL that UploadTo is called with.
sent_to-upload_to :
    (text : Text) (up : Upload) (e : Export) (r : Uploaded)
    → upload_to text up e ≡ ok r
    → r.sent ≢ none
    → r.sent_to ≡ some text
unfolding upload_to
sent_to-upload_to text up e r h went = ground arith

finish-sent :
    (text : Text) (up : Upload) (subject : SubjectIdentifiers) (e : Export) (handled : Bool)
    (run : Exported) (zs : List ZipEntry)
    → finish text up subject e handled ≡ ok run
    → run.sent ≡ some zs
    → (handled ≡ true)
      × (run.called_for ≡ some subject)
      × (run.sent_to ≡ some text)
      × (e.error ≡ none)
      × (e.item_count ≢ 0)
unfolding finish has_error is_empty_export
finish-sent text up subject e true run zs h s = elim (Result-cases (upload_to text up e)) [
  | inl (r, f) ↦ (
    refl,
    ground arith,
    ground (arith, sent_to-upload_to text up e r f),
    ground arith,
    ground arith,
  )
  | inr (p, f) ↦ (refl, ground arith, ground arith, ground arith, ground arith)
]
finish-sent text up subject e false run zs h s = absurd (ground arith)

module _ (u : Unicode) (parse_url : Text → Option UploadUrl) (hosts : List Text) where
  -- The handler of RegisterPrivacyDataExportEndpoint, with the URL that the body names, whether a
  -- temporary file could be made, and how the upload goes.
  unfoldable pub data_export :
      Filler → Option Text → Bool → Upload → Context → Result Panic Exported
  data_export fill body has_file up c = elim (subject_of c) [
    | none ↦ ok (refused 401)
    | some subject ↦ elim body [
      | none ↦ ok (refused 400)
      | some text ↦ elim (refusal u hosts (parse_url text)) [
        | some status ↦ ok (refused status)
        | none ↦ if not has_file then ok (refused 500) else elim (fill subject new_export) [
          | err p ↦ err p
          | ok (e, handled) ↦ finish text up subject e handled
        ]
      ]
    ]
  ]

  -- A URL that an export may be sent to.
  abbrev pub MayReceive : UploadUrl → Type 0
  MayReceive url =
      ((url.scheme ≡ codes "https")
        ⊎ (url.hostname ≡ codes "localhost")
        ⊎ (url.hostname ≡ codes "127.0.0.1"))
      × ((hosts ≡ []) ⊎ (is_allowed_host u url.hostname hosts ≡ true))

  refusal-none :
      (o : Option UploadUrl)
      → refusal u hosts o ≡ none
      → (url : UploadUrl) × (o ≡ some url) × MayReceive url
  unfolding refusal is_local
  refusal-none none h = cc
  refusal-none (some url) h = (
    url,
    refl,
    (
      ground (
        arith,
        text_eq_iff url.scheme (codes "https"),
        text_eq_iff url.hostname (codes "localhost"),
        text_eq_iff url.hostname (codes "127.0.0.1"),
      ),
      host_refusal-none u hosts url.hostname (ground arith),
    ),
  )

  -- Data leaves the service only for the subject whose identifiers the middleware put into the
  -- request, by a request to the URL of the body, which uses HTTPS or a local host and whose host
  -- is in the list of allowed hosts if there is one, and only what a handler that returned no
  -- error has put into an export without a failed call and with an item.
  pub data_export-sent :
      (fill : Filler) (body : Option Text) (has_file : Bool) (up : Upload) (c : Context)
      (run : Exported) (zs : List ZipEntry)
      → data_export fill body has_file up c ≡ ok run
      → run.sent ≡ some zs
      → (subject : SubjectIdentifiers) × (text : Text) × (url : UploadUrl) × (e : Export)
        × (subject_of c ≡ some subject)
        × (run.called_for ≡ some subject)
        × (run.sent_to ≡ some text)
        × (body ≡ some text)
        × (parse_url text ≡ some url)
        × MayReceive url
        × (fill subject new_export ≡ ok (e, true))
        × (e.error ≡ none)
        × (e.item_count ≢ 0)
  unfolding data_export
  data_export-sent fill body has_file up c run zs h s = elim (Option-cases (subject_of c)) [
    | inl e₁ ↦ absurd (ground arith)
    | inr (subject, e₁) ↦ elim (Option-cases body) [
      | inl e₂ ↦ absurd (ground arith)
      | inr (text, e₂) ↦ elim (Option-cases (refusal u hosts (parse_url text))) [
        | inr (status, e₃) ↦ absurd (ground arith)
        | inl e₃ ↦ elim (Result-cases (fill subject new_export)) [
          | inr (p, e₄) ↦ absurd (ground arith)
          | inl ((e, handled), e₄) ↦
              let (url, parsed, may) = refusal-none (parse_url text) e₃ in
              let (good, called, went_to, clear, filled) =
                finish-sent text up subject e handled run zs (ground arith) s in
              (
                subject,
                text,
                url,
                e,
                e₁,
                called,
                went_to,
                e₂,
                parsed,
                may,
                rw (← good) e₄,
                clear,
                filled,
              )
        ]
      ]
    ]
  ]
