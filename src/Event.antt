-- ===== src/Event.antt =====
-- audit/event.go: the audit record. Metadata is a list of entries with the values left abstract
-- as texts, or absent (`nil`).
use prompt_sdk.Prelude.{ℕ, Text, codes, List, Option}

unfoldable pub outcome_success : Text
outcome_success = codes "success"

unfoldable pub outcome_denied : Text
outcome_denied = codes "denied"

unfoldable pub outcome_error : Text
outcome_error = codes "error"

pub record Event : Type 0 where
  pub actor_id : Text
  pub actor_name : Text
  pub actor_email : Text
  pub actor_roles : List Text
  pub actor_role : Text
  pub action : Text
  pub action_key : Text
  pub outcome : Text
  pub entity_type : Text
  pub entity_id : Text
  pub entity_name : Text
  pub course_id : Text
  pub course_phase_id : Text
  pub source_service : Text
  pub http_method : Text
  pub http_path : Text
  pub http_status : ℕ
  pub metadata : Option (List (Text × Text))
