-- ===== src/Tests/Fixtures.antt =====
-- A concrete runtime, requests and journals for the tests.
use strongclaw.Prelude.{ℕ, String, none, [], ◌∷◌, ◌==◌}
use strongclaw.Value.{str, end, field}
use strongclaw.Runtime.{Runtime}
use strongclaw.Journal.Rows.{Operation, Journal}
use strongclaw.Journal.Begin.{Request}
use strongclaw.Journal.Lease.{LeaseRequest}

-- A text stands for its own digest, every value is written as "{}", and nothing is read back.
abbrev pub toy : Runtime
toy = record {
  sha256_hex = λ s. s;
  canonical_json = λ v. "{}";
  dumps = λ v. "{}";
  loads = λ s. none;
  fnmatch = λ s p. s == p;
  repr = λ v. "";
  delay = λ s. none;
}

abbrev pub comment : Request
comment = record {
  scope = "github";
  kind = "comment";
  trust_zone = "reader";
  normalized_target = "repo#1";
  inputs = field "body" (str "hello") end;
}

-- The same work from another trust zone.
abbrev pub comment_again : Request
comment_again = record comment { trust_zone = "admin" }

-- A row with everything but its id, status and approval flag fixed.
abbrev pub row : String → String → ℕ → Operation
row id status approval = record {
  op_id = id;
  created_at_ms = 1;
  updated_at_ms = 1;
  scope = "github";
  idempotency_key = "key";
  kind = "comment";
  trust_zone = "reader";
  normalized_target = "repo#1";
  inputs_json = "{}";
  inputs_hash = "{}";
  status = status;
  attempt = 0;
  last_error = none;
  compensation_state = none;
  policy_decision = none;
  policy_decision_json = none;
  execution_contract_version = none;
  execution_contract_json = none;
  approval_required = approval;
  approved_by = none;
  approved_at_ms = none;
  approval_note = none;
  review_mode = none;
  review_target = none;
  review_status = none;
  reviewed_by = none;
  reviewed_at_ms = none;
  review_note = none;
  review_artifact_path = none;
  review_payload_json = none;
  result_ok = none;
  result_status_code = none;
  result_body_excerpt = none;
  result_error_type = none;
  result_error_retryable = none;
  result_request_method = none;
  result_request_url = none;
  result_request_attempts = none;
  result_request_id = none;
  result_retry_after_seconds = none;
}

abbrev pub one_row : String → ℕ → Journal
one_row status approval = record { ops = row "a" status approval ∷ []; leases = [] }

abbrev pub lease_for : String → ℕ → LeaseRequest
lease_for session ttl = record {
  lock_identity = "lock";
  session_identity = session;
  backend = "acpx";
  project_id = "p";
  workspace_id = "w";
  lane = "l";
  role = "r";
  operation_kind = "k";
  holder = "h";
  ttl_seconds = ttl;
  metadata = none;
}
