-- ===== src/Audit/Sink.antt =====
-- audit/sink_http.go: the sink that ships an event to core, and when a service has one.
use prompt_sdk.Prelude.{
  ℕ, zero, suc, ◌+◌, ◌*◌, ◌≤◌, ◌<◌, ◌≡◌, ◌⊎◌, ◌↔◌, Bool, true, false, not, ◌&&◌, ◌||◌, Option, none,
  some, List, [], ◌∷◌, Text, codes, text_eq, is_empty, contains_byte, ltb, leb, ◌==◌, length, arith,
  if◌then◌else◌,
}
use prompt_sdk.Event.{Event}
use prompt_sdk.Audit.{enabled}

pub record CoreSink : Type 0 where
  pub url : Text
  pub service : Text
  pub key : Text

-- What net/url and net say of an address.
pub record ParsedUrl : Type 0 where
  pub scheme : Text
  pub hostname : Text

pub record Ip : Type 0 where
  pub is_loopback : Bool
  pub is_private : Bool

pub record Addresses : Type 0 where
  pub parse_url : Text → Option ParsedUrl
  pub parse_ip : Text → Option Ip
  pub join_path : Text → List Text → Option Text

unfoldable pub insecure_host : Addresses → Text → Bool
insecure_host net host =
    if is_empty host
    then true
    else if text_eq host (codes "localhost") || not (contains_byte host b'.')
    then false
    else elim (net.parse_ip host) [
      | some ip ↦ not ip.is_loopback && not ip.is_private
      | none ↦ true
    ]

unfoldable pub insecure_external_url : Addresses → Text → Bool
unfolding insecure_host
insecure_external_url net raw = elim (net.parse_url raw) [
  | none ↦ true
  | some u ↦ if text_eq u.scheme (codes "https") then false else insecure_host net u.hostname
]

-- `NewCoreSink`, with the values of AUDIT_ENABLED and of AUDIT_INGEST_KEY (empty if not set);
-- `none` for nil
unfoldable pub new_core_sink : Addresses → Option Text → Text → Text → Text → Option CoreSink
unfolding enabled
new_core_sink net audit_enabled ingest_key core_url service_name =
    if not (enabled audit_enabled) || is_empty ingest_key
    then none
    else elim (net.join_path core_url (codes "api" ∷ codes "audit" ∷ [])) [
      | none ↦ none
      | some url ↦ some (record { url = url; service = service_name; key = ingest_key })
    ]

pub record Request : Type 0 where
  pub url : Text
  pub body : Text
  pub service : Text
  pub key : Text

-- encoding/json and net/http: the answer to each attempt is its status, or none if the network
-- failed.
pub record HttpClient : Type 0 where
  pub marshal : Event → Option Text
  pub builds : Text → Bool
  pub send : ℕ → Request → Option ℕ

pub data SinkError : Type 0 where
  marshal_failed build_failed network_failed : SinkError
  bad_status : ℕ → SinkError

-- What Record has done: the requests sent, the milliseconds slept between them, and its result,
-- none for the nil error.
pub record Shipment : Type 0 where
  pub sent : List Request
  pub slept : ℕ
  pub failure : Option SinkError

unfoldable pub is_success : ℕ → Bool
is_success status = leb 200 status && ltb status 300

-- the test after which the loop goes on
unfoldable pub is_transient : ℕ → Bool
is_transient status = status == 429 || leb 500 status

-- an attempt, and what follows it
unfoldable pub after : ℕ → Request → Shipment → Shipment
after attempt r s = record s { sent = r ∷ s.sent; slept = attempt * 500 + s.slept }

abbrev pub over_with : Option SinkError → Shipment
over_with failure = record { sent = []; slept = 0; failure = failure }

-- the loop, with the attempts left, the number of this one and the last error
unfoldable pub attempts : HttpClient → Request → ℕ → ℕ → Option SinkError → Shipment
unfolding is_success is_transient after
attempts http r zero attempt last = over_with last
attempts http r (suc left) attempt last =
    if not (http.builds r.url)
    then record { sent = []; slept = attempt * 500; failure = some build_failed }
    else elim (http.send attempt r) [
      | none ↦ after attempt r (attempts http r left (attempt + 1) (some network_failed))
      | some status ↦
          let next = attempts http r left (attempt + 1) (some (bad_status status)) in
          if is_success status
          then after attempt r (over_with none)
          else if is_transient status
          then after attempt r next
          else after attempt r (over_with (some (bad_status status)))
    ]

-- `coreSink.Record`
unfoldable pub record_shipment : HttpClient → CoreSink → Event → Shipment
unfolding attempts
record_shipment http sink e = elim (http.marshal e) [
  | none ↦ record { sent = []; slept = 0; failure = some marshal_failed }
  | some body ↦
      attempts http (record { url = sink.url; body = body; service = sink.service; key = sink.key })
        3 0 none
]

-- An answer after which another attempt is worth it, and one that settles the delivery.
abbrev pub IsTransient : Option ℕ → Type 0
IsTransient none = Unit
IsTransient (some status) = (status ≡ 429) ⊎ (500 ≤ status)

abbrev pub IsAccepted : Option ℕ → Type 0
IsAccepted none = ⊥
IsAccepted (some status) = (200 ≤ status) × (status < 300)

module _ (http : HttpClient) (sink : CoreSink) (e : Event) (body : Text)
    (marshalled : http.marshal e ≡ some body) (valid : http.builds sink.url ≡ true) where
  abbrev pub posted : Request
  posted = record { url = sink.url; body = body; service = sink.service; key = sink.key }

  abbrev pub answer : ℕ → Option ℕ
  answer attempt = http.send attempt posted

  pub record_delivers_iff : ((record_shipment http sink e).failure ≡ none) ↔ (
      IsAccepted (answer 0)
      ⊎ (IsTransient (answer 0) × IsAccepted (answer 1))
      ⊎ (IsTransient (answer 0) × IsTransient (answer 1) × IsAccepted (answer 2)))
  unfolding record_shipment
  record_delivers_iff = ground arith

  pub record_attempts :
      ((2 ≤ length (record_shipment http sink e).sent) ↔ IsTransient (answer 0))
      × ((3 ≤ length (record_shipment http sink e).sent)
          ↔ (IsTransient (answer 0) × IsTransient (answer 1)))
      × (length (record_shipment http sink e).sent ≤ 3)
      × ((record_shipment http sink e).slept ≤ 1500)
  unfolding record_shipment
  record_attempts = ground arith
