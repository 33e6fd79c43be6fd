-- ===== src/Journal/Rows.antt =====
-- The rows of the journal's tables (src/clawops/op_journal.py). A nullable column is an `Option`,
-- a time is in milliseconds, a flag is the number that SQLite stores. The REAL column
-- `result_retry_after_seconds` holds thousandths of a second.
use strongclaw.Prelude.Int.{ℤ}
use strongclaw.Prelude.{ℕ, String, Option, List, []}

pub record Operation : Type 0 where
  pub op_id : String
  pub created_at_ms : ℕ
  pub updated_at_ms : ℕ
  pub scope : String
  pub idempotency_key : String
  pub kind : String
  pub trust_zone : String
  pub normalized_target : String
  pub inputs_json : String
  pub inputs_hash : String
  pub status : String
  pub attempt : ℕ
  pub last_error : Option String
  pub compensation_state : Option String
  pub policy_decision : Option String
  pub policy_decision_json : Option String
  pub execution_contract_version : Option ℕ
  pub execution_contract_json : Option String
  pub approval_required : ℕ
  pub approved_by : Option String
  pub approved_at_ms : Option ℕ
  pub approval_note : Option String
  pub review_mode : Option String
  pub review_target : Option String
  pub review_status : Option String
  pub reviewed_by : Option String
  pub reviewed_at_ms : Option ℕ
  pub review_note : Option String
  pub review_artifact_path : Option String
  pub review_payload_json : Option String
  pub result_ok : Option ℕ
  pub result_status_code : Option ℤ
  pub result_body_excerpt : Option String
  pub result_error_type : Option String
  pub result_error_retryable : Option ℕ
  pub result_request_method : Option String
  pub result_request_url : Option String
  pub result_request_attempts : Option ℕ
  pub result_request_id : Option String
  pub result_retry_after_seconds : Option ℕ

pub record SessionLease : Type 0 where
  pub lease_id : String
  pub lock_identity : String
  pub session_identity : String
  pub backend : String
  pub project_id : String
  pub workspace_id : String
  pub lane : String
  pub role : String
  pub operation_kind : String
  pub holder : String
  pub metadata_json : Option String
  pub created_at_ms : ℕ
  pub updated_at_ms : ℕ
  pub expires_at_ms : ℕ
  pub released_at_ms : Option ℕ
  pub released_by : Option String
  pub status : String

-- The file at `db_path`.
pub record Journal : Type 0 where
  pub ops : List Operation
  pub leases : List SessionLease

abbrev pub empty_journal : Journal
empty_journal = record { ops = []; leases = [] }
