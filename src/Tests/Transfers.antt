-- ===== src/Tests/Transfers.antt =====
-- The theorems on exports, validators, ownership and resolutions at concrete inputs.
use prompt_sdk.Prelude.{
  ◌≡◌, ◌↔◌, ◌⊎◌, refl, true, false, Option, none, some, List, [], ◌∷◌, Text, codes, text_eq, ok,
  err, All, arith, split, replace_byte, has_prefix, contains, trim,
}
use prompt_sdk.Identity.{Uuid}
use prompt_sdk.Gin.{Context, Value}
use prompt_sdk.Json.{Json, nil, cons, end, field, find}
use prompt_sdk.Export.{
  Export, ExportError, ZipEntry, new_export, value, nil_value, nil_writer, Upload, Uploaded,
  upload_to,
}
use prompt_sdk.Export.Paths.{sanitize_zip_path, clean, has_drive}
use prompt_sdk.Export.Safe.{IsBelow, sanitize_zip_path-IsBelow}
use prompt_sdk.Export.Calls.{Method, Addition, add_all, expected}
use prompt_sdk.Export.Indexed.{contents, upload_to-contents, upload_to-retry}
use prompt_sdk.Validator.{tum_id_validator, is_ascii_digit, is_ascii_letter, is_lower_latin}
use prompt_sdk.Validator.Exact.{IsLogin, tum_id_validator_iff}
use prompt_sdk.Ownership.{
  validate_student_ownership, Verdict, Holds, validate_student_ownership-Verdict,
}
use prompt_sdk.Resolution.{
  Fetcher, Participation, merge_resolutions, merge_each, Resolved, resolve_all_participations,
  resolve_participation, parse_and_validate, merge_one, merge_all, put, raw, decoded,
}
use prompt_sdk.Resolution.Targets.{
  Resolution, ParsedUrl, build_url, all_paths, validate_resolution_target, has_traversal_segment,
  path_unescape, prepend, get_endpoint_path,
}
use prompt_sdk.Resolution.Traversal.{IsTarget, StaysBelow, build_url_iff}
use prompt_sdk.Resolution.Merge.{
  Merged, ResolvedAs, entry_of, merge_resolutions-Merged, merge_each-raw,
}
use prompt_sdk.Tests.World.{request, parse}

sanitized : sanitize_zip_path (codes "a\\.\\b/../user.json") ≡ some (codes "a/user.json")
unfolding sanitize_zip_path clean has_drive split replace_byte has_prefix text_eq
sanitized = refl

sanitize_zip_path-IsBelow_example : IsBelow (codes "a/user.json")
sanitize_zip_path-IsBelow_example =
    sanitize_zip_path-IsBelow (codes "a\\.\\b/../user.json") (codes "a/user.json") sanitized

abbrev calls : List Addition
calls =
    record {
      method = Method.json;
      name = codes "User";
      path = codes "user.json";
      collected = value (codes "{}") true;
      creates = true;
    }
    ∷ record {
      method = Method.file;
      name = codes "None";
      path = codes "none.json";
      collected = nil_value;
      creates = true;
    }
    ∷ []

abbrev lost : Upload
lost = record {
  writes_contents = true;
  closes = true;
  seeks = true;
  stats = true;
  makes_request = true;
  response = some 503;
}

upload_to-contents_example :
    (e : Export) × (u : Uploaded) × (add_all calls new_export ≡ ok e)
    × (upload_to (codes "U") lost e ≡ ok u)
    × (u.failure ≡ none
        → (e.error ≡ none)
          × (u.sent ≡ some (contents (expected calls)))
          × All (λ i. IsBelow i.path) (expected calls))
upload_to-contents_example = upload_to-contents calls (codes "U") lost

-- An export with one item, and what an upload that the store refuses leaves of it.
abbrev filled : Export
filled = record {
  file_open = true;
  zip_open = true;
  error = none;
  finished = false;
  item_count = 1;
  entries = [];
  archive = [];
}

abbrev refused : Uploaded
refused = record {
  export = record filled { zip_open = false; archive = ZipEntry.index [] ∷ [] };
  failure = some (ExportError.bad_status 503);
  sent = some (ZipEntry.index [] ∷ []);
  sent_to = some (codes "U");
}

refused_lem : upload_to (codes "U") lost filled ≡ ok refused
unfolding upload_to
refused_lem = refl

upload_to-retry_example : upload_to (codes "V") lost refused.export ≡ err nil_writer
upload_to-retry_example =
    upload_to-retry (codes "U") (codes "V") lost lost filled refused refl refl (omega arith) refl
      refl refused_lem (λ h. cc)

tum_id_validator_iff_example :
    (tum_id_validator (codes "ab12xyz") ≡ true) ↔ IsLogin (codes "ab12xyz")
tum_id_validator_iff_example = tum_id_validator_iff (codes "ab12xyz")

-- The two bytes of U+07F5 are taken for two small letters.
two_bytes : tum_id_validator (0xDF ∷ 0xB5 ∷ codes "12xyz") ≡ true
unfolding tum_id_validator is_lower_latin is_ascii_digit is_ascii_letter
two_bytes = refl

abbrev owner : Context
owner = record request { keys = λ k. some (Value.uuid 42) }

validate_student_ownership-Verdict_example :
    Verdict parse owner 42
      (validate_student_ownership parse owner 42).0
      (validate_student_ownership parse owner 42).1
    × (((validate_student_ownership parse owner 42).1 ≡ none) ↔ Holds parse owner 42)
validate_student_ownership-Verdict_example = validate_student_ownership-Verdict parse owner 42

abbrev scores : Resolution
scores = record {
  dto_name = codes "score";
  base_url = codes "B";
  endpoint_path = codes "/scores/";
  course_phase_id = 7;
}

abbrev parsed : Text → Option ParsedUrl
parsed t =
    some (record { scheme = codes "https"; host = codes "core"; has_user = false; path = [] })

abbrev joined : ParsedUrl → List Text → Text
joined u parts = codes "U"

abbrev shown : Uuid → Text
shown id = codes "7"

build_url_iff_example : (build_url parsed joined shown scores [] ≡ some (codes "U")) ↔ (
    (u : ParsedUrl) × IsTarget parsed joined shown scores u
    × All StaysBelow (all_paths parsed joined shown scores [])
    × (codes "U" ≡ joined u (all_paths parsed joined shown scores [])))
build_url_iff_example = build_url_iff parsed joined shown scores [] (codes "U")

-- A service whose resolved score is 5.
abbrev net : Fetcher
net = record {
  parse_url = parsed;
  join_path = joined;
  join_core = λ url parts. some url;
  fetch = λ url auth. some (200, codes "{}");
  unmarshal = λ body. some (Json.obj (field (codes "score") (Json.num (codes "5")) end));
  unmarshal_participations = λ body. none;
  unmarshal_participation = λ body. none;
  unmarshal_phase = λ body. none;
  parse_uuid = parse;
  uuid_text = shown;
}

abbrev ada : Participation
ada = record { course_participation_id = 42; prev_data = none }

abbrev ada_after : Participation
ada_after = record ada { prev_data = some ((codes "score", raw (codes "core")) ∷ []) }

merged_raw : merge_each net [] (codes "core") 42 (scores ∷ []) ada ≡ ok ada_after
unfolding merge_each resolve_participation build_url validate_resolution_target text_eq all_paths
    has_traversal_segment path_unescape prepend contains split get_endpoint_path trim
    parse_and_validate find merge_one put
merged_raw = refl

merge_each-raw_example :
    (entry_of ada_after (codes "score") ≡ some (raw (codes "core")))
    ⊎ (entry_of ada_after (codes "score") ≡ entry_of ada (codes "score"))
merge_each-raw_example =
    merge_each-raw net [] (codes "core") 42 (scores ∷ []) ada ada_after merged_raw (codes "score")

abbrev listing : Fetcher
listing = record net {
  unmarshal = λ body. some (
      Json.arr (
        cons
          (Json.obj (
            field (codes "courseParticipationID") (Json.str (codes "p1"))
              (field (codes "score") (Json.num (codes "5")) end)))
          nil));
}

abbrev bob : Participation
bob = record { course_participation_id = 7; prev_data = none }

abbrev bob_after : Participation
bob_after = record bob { prev_data = some ((codes "score", decoded (Json.num (codes "5"))) ∷ []) }

merged_all : merge_resolutions listing [] (scores ∷ []) (bob ∷ ada ∷ []) ≡ ok (bob_after ∷ ada ∷ [])
unfolding merge_resolutions resolve_all_participations build_url validate_resolution_target text_eq
    all_paths has_traversal_segment path_unescape prepend contains split get_endpoint_path trim
    merge_all find put
merged_all = refl

merge_resolutions-Merged_example :
    (rs : List (Text × Resolved)) × ResolvedAs listing [] (scores ∷ []) rs
    × Merged rs (bob ∷ ada ∷ []) (bob_after ∷ ada ∷ [])
merge_resolutions-Merged_example =
    merge_resolutions-Merged listing [] (scores ∷ []) (bob ∷ ada ∷ []) (bob_after ∷ ada ∷ [])
      merged_all
