-- ===== src/Resolution.antt =====
-- resolution.go: where the data of a resolution is fetched, and how it is merged into what core
-- answers. URLs, JSON, the network and the UUID library are the parameter `Fetcher`.
pub mod Targets
pub mod Traversal
pub mod Merge
use prompt_sdk.Prelude.{
  ℕ, Bool, true, false, not, ◌&&◌, ◌||◌, Option, none, some, List, [], ◌∷◌, ◌++◌, Text, codes,
  text_eq, ◌==◌, Result, ok, err, ◌>>=◌, if◌then◌else◌,
}
use prompt_sdk.Identity.{Uuid}
use prompt_sdk.Json.{Json, null, str, arr, obj, Items, nil, cons, Object, find, as_string}
use Targets.{ParsedUrl, build_url, Resolution}

-- An entry of a `promptTypes.MetaData` is a decoded value, or a `[]byte`.
pub data Entry : Type 0 where
  decoded : Json → Entry
  raw : Text → Entry

abbrev pub MetaData : Type 0
MetaData = List (Text × Entry)

-- `m[key]` and `m[key] = value`
unfoldable pub get : MetaData → Text → Option Entry
get [] key = none
get ((k, v) ∷ m) key = if text_eq k key then some v else get m key

unfoldable pub put : MetaData → Text → Entry → MetaData
put m key v = (key, v) ∷ m

-- `prev_data` is `none` for a nil map; the other fields are left out.
pub record Participation : Type 0 where
  pub course_participation_id : Uuid
  pub prev_data : Option MetaData

pub data FetchError : Type 0 where
  bad_target not_fetched not_decoded missing_key bad_id : FetchError

pub record Fetcher : Type 0 where
  pub parse_url : Text → Option ParsedUrl
  pub join_path : ParsedUrl → List Text → Text
  pub join_core : Text → List Text → Option Text
  -- the status and the body of an answer to GET, with the header
  pub fetch : Text → Text → Option (ℕ × Text)
  pub unmarshal : Text → Option Json
  pub unmarshal_participations : Text → Option (List Participation × List Resolution)
  pub unmarshal_participation : Text → Option (Participation × List Resolution)
  pub unmarshal_phase : Text → Option (Option MetaData × List Resolution)
  pub parse_uuid : Text → Option Uuid
  pub uuid_text : Uuid → Text

-- What was resolved: a `map[uuid.UUID]interface{}`, as its lookup.
abbrev pub Resolved : Type 0
Resolved = Uuid → Option Json

module _ (net : Fetcher) where
  -- `FetchJSON`
  unfoldable pub fetch_json : Text → Text → Result FetchError Text
  fetch_json url auth = elim (net.fetch url auth) [
    | none ↦ err not_fetched
    | some (status, body) ↦ if status == 200 then ok body else err not_fetched
  ]

  unfoldable pub target : Resolution → List Text → Result FetchError Text
  target res extra = elim (build_url net.parse_url net.join_path net.uuid_text res extra) [
    | none ↦ err bad_target
    | some url ↦ ok url
  ]

  -- the value under the key in an object; a JSON null is a nil map
  key_of : Text → Option Json → Result FetchError Json
  key_of key (some (obj o)) = elim (find o key) [ none ↦ err missing_key | some v ↦ ok v ]
  key_of key (some null) = err missing_key
  key_of key _ = err not_decoded

  unfoldable pub parse_and_validate : Text → Text → Result FetchError Json
  unfolding key_of
  parse_and_validate body dto_name = key_of dto_name (net.unmarshal body)

  unfoldable pub resolve_participation : Text → Resolution → Uuid → Result FetchError Json
  unfolding target fetch_json
  resolve_participation auth res id = do
    url ← target res (net.uuid_text id ∷ [])
    body ← fetch_json url auth
    parse_and_validate body res.dto_name

  unfoldable pub resolve_course_phase_data : Text → Resolution → Result FetchError Json
  unfolding target fetch_json
  resolve_course_phase_data auth res = do
    url ← target res []
    body ← fetch_json url auth
    parse_and_validate body res.dto_name

  -- `item[key]`, the nil interface if it is missing
  or_nil : Option Json → Json
  or_nil none = null
  or_nil (some v) = v

  -- the loop of ResolveAllParticipations
  format_results : Text → Items → Resolved → Result FetchError Resolved
  unfolding or_nil
  format_results dto_name nil acc = ok acc
  format_results dto_name (cons (obj item) items) acc =
      elim (as_string (find item (codes "courseParticipationID"))) [
        | none ↦ err bad_id
        | some text ↦ elim (net.parse_uuid text) [
          | none ↦ err bad_id
          | some id ↦
              format_results dto_name items
                (λ j. if j == id then some (or_nil (find item dto_name)) else acc j)
        ]
      ]
  format_results dto_name (cons null items) acc = err bad_id
  format_results dto_name (cons _ items) acc = err not_decoded

  all_results : Text → Option Json → Result FetchError Resolved
  unfolding format_results
  all_results dto_name (some (arr items)) = format_results dto_name items (λ j. none)
  all_results dto_name (some null) = ok (λ j. none)
  all_results dto_name _ = err not_decoded

  unfoldable pub resolve_all_participations : Text → Resolution → Result FetchError Resolved
  unfolding target fetch_json all_results
  resolve_all_participations auth res = do
    url ← target res []
    body ← fetch_json url auth
    all_results res.dto_name (net.unmarshal body)

  -- `make` where the map is nil
  or_empty : Option MetaData → MetaData
  or_empty none = []
  or_empty (some m) = m

  -- the inner loop of FetchAndMergeParticipationsWithResolutions
  unfoldable pub merge_into : Text → Resolved → Participation → Participation
  unfolding or_empty
  merge_into dto_name resolved p = elim (resolved p.course_participation_id) [
    | none ↦ p
    | some v ↦ record p { prev_data = some (put (or_empty p.prev_data) dto_name (decoded v)) }
  ]

  unfoldable pub merge_all : Text → Resolved → List Participation → List Participation
  unfolding merge_into
  merge_all dto_name resolved [] = []
  merge_all dto_name resolved (p ∷ ps) =
      merge_into dto_name resolved p ∷ merge_all dto_name resolved ps

  -- its outer loop
  unfoldable pub merge_resolutions :
      Text → List Resolution → List Participation → Result FetchError (List Participation)
  merge_resolutions auth [] ps = ok ps
  merge_resolutions auth (res ∷ more) ps = elim (resolve_all_participations auth res) [
    | err e ↦ err e
    | ok resolved ↦ merge_resolutions auth more (merge_all res.dto_name resolved ps)
  ]

  unfoldable pub core_path : Text → List Text → Result FetchError Text
  core_path core_url parts = elim (net.join_core core_url parts) [
    | none ↦ err bad_target
    | some url ↦ ok url
  ]

  unmarshalled {ℓ} : {A : Type ℓ} → Option A → Result FetchError A
  unmarshalled none = err not_decoded
  unmarshalled (some a) = ok a

  -- `FetchAndMergeParticipationsWithResolutions`
  unfoldable pub fetch_and_merge_participations :
      Text → Text → Uuid → Result FetchError (List Participation)
  unfolding core_path unmarshalled
  fetch_and_merge_participations core_url auth phase = do
    url ←
        core_path core_url
          (codes "api/course_phases" ∷ net.uuid_text phase ∷ codes "participations" ∷ [])
    body ← fetch_json url auth
    response ← unmarshalled (net.unmarshal_participations body)
    merge_resolutions auth response.1 response.0

  -- the loop of FetchAndMergeCourseParticipationWithResolution, with `data`, the answer of core;
  -- a JSON null is a nil interface
  unfoldable pub merge_one : Text → Text → Json → Participation → Participation
  unfolding or_empty
  merge_one body dto_name null p = p
  merge_one body dto_name _ p = record p {
    prev_data = some (put (or_empty p.prev_data) dto_name (raw body));
  }

  unfoldable pub merge_each :
      Text → Text → Uuid → List Resolution → Participation → Result FetchError Participation
  merge_each auth body id [] p = ok p
  merge_each auth body id (res ∷ more) p = elim (resolve_participation auth res id) [
    | err e ↦ err e
    | ok v ↦ merge_each auth body id more (merge_one body res.dto_name v p)
  ]

  -- `FetchAndMergeCourseParticipationWithResolution`
  unfoldable pub fetch_and_merge_course_participation :
      Text → Text → Uuid → Uuid → Result FetchError Participation
  unfolding core_path unmarshalled
  fetch_and_merge_course_participation core_url auth phase id = do
    url ← core_path core_url (
        codes "api/course_phases"
        ∷ net.uuid_text phase
        ∷ codes "participations"
        ∷ net.uuid_text id
        ∷ [])
    body ← fetch_json url auth
    response ← unmarshalled (net.unmarshal_participation body)
    merge_each auth body id response.1 response.0

  -- the loop of FetchAndMergeCoursePhaseWithResolution
  unfoldable pub merge_phase : Text → List Resolution → MetaData → Result FetchError MetaData
  merge_phase auth [] m = ok m
  merge_phase auth (res ∷ more) m = elim (resolve_course_phase_data auth res) [
    | err e ↦ err e
    | ok v ↦ merge_phase auth more (put m res.dto_name (decoded v))
  ]

  -- `FetchAndMergeCoursePhaseWithResolution`
  unfoldable pub fetch_and_merge_course_phase : Text → Text → Uuid → Result FetchError MetaData
  unfolding core_path unmarshalled or_empty
  fetch_and_merge_course_phase core_url auth phase = do
    url ←
        core_path core_url
          (codes "api/course_phases" ∷ net.uuid_text phase ∷ codes "course_phase_data" ∷ [])
    body ← fetch_json url auth
    response ← unmarshalled (net.unmarshal_phase body)
    merge_phase auth response.1 (or_empty response.0)
