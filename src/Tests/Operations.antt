-- ===== src/Tests/Operations.antt =====
-- The theorems on start-up, masking and application answers at concrete inputs.
use prompt_sdk.Prelude.{
  ◌≡◌, ◌≢◌, ◌↔◌, refl, true, none, some, List, [], ◌∷◌, ◌++◌, Text, codes, All, ok,
}
use prompt_sdk.Json.{Json}
use prompt_sdk.Masking.{new_writer, write_all, write, flush}
use prompt_sdk.Masking.Credentials.{
  sanitize_database_url, match_credential, literal, dialect, authority, user_info, user_end,
  is_user_byte, password_end,
}
use prompt_sdk.Masking.Chunks.{masked, lines, joined, write_all-lines}
use prompt_sdk.Answers.{RawAnswer, read_application_answers}
use prompt_sdk.Answers.Exact.{IsAnswer, texts_of, multis_of, read_application_answers_iff}
use prompt_sdk.Startup.{ServiceOptions, Machine, bootstrap}
use prompt_sdk.Startup.Traces.{served, IsReady, bootstrap-IsReady_iff}

abbrev pieces : List Text
pieces = codes "postgres://u:se" ∷ (codes "c@h" ++ 10 ∷ codes "ok") ∷ []

write_all-lines_example : (flush (write_all pieces new_writer)).out ≡ masked (lines (joined pieces))
write_all-lines_example = write_all-lines pieces

two_lines :
    (flush (write_all pieces new_writer)).out ≡ codes "postgres://u:***@h" ++ 10 ∷ codes "ok"
unfolding write_all flush write sanitize_database_url match_credential literal dialect authority
    user_info user_end is_user_byte password_end
two_lines = refl

abbrev raws : List RawAnswer
raws =
    record {
      type = codes "text";
      order_num = codes "1";
      answer = Json.str (codes "hi");
      key = codes "k";
    }
    ∷ []

read_application_answers_iff_example :
    (read_application_answers (λ j. some raws) Json.null ≡ ok (texts_of raws, [])) ↔ (
      (ras : List RawAnswer) × (some raws ≡ some ras)
      × All IsAnswer ras
      × (texts_of raws ≡ texts_of ras)
      × ([] ≡ multis_of ras))
read_application_answers_iff_example =
    read_application_answers_iff (λ j. some raws) Json.null (texts_of raws) []

abbrev options : ServiceOptions
options = record {
  service_name = codes "interview";
  base_path = codes "/interview/api";
  db_env_prefix = codes "INTERVIEW";
  default_db_port = codes "5433";
  sentry_dsn_env = codes "SENTRY_DSN_INTERVIEW";
  default_address = codes "localhost:8087";
  capabilities = [];
  has_register_routes = true;
}

abbrev machine : Machine
machine = record {
  lookup_env = λ key. none;
  migrates = λ url. true;
  opens_pool = λ url. true;
  inits_keycloak = λ base realm core. true;
  registers = true;
  listens = λ address. true;
  closes_cleanly = true;
}

bootstrap-IsReady_iff_example :
    ((served (bootstrap machine options).0 ≡ some (codes "localhost:8087"))
      ↔ IsReady machine options (codes "localhost:8087"))
    × (IsReady machine options (codes "localhost:8087") → codes "localhost:8087" ≢ [])
bootstrap-IsReady_iff_example = bootstrap-IsReady_iff machine options (codes "localhost:8087")
