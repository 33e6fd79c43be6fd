-- ===== src/Journal/Transition.antt =====
-- `OperationJournal.transition` (src/clawops/op_journal.py).
pub mod Exact
use strongclaw.Prelude.Int.{ℤ}
use strongclaw.Prelude.{
  ℕ, ◌+◌, String, Bool, true, false, ◌&&◌, not, Option, none, some, ◌==◌, eqb, if◌then◌else◌,
}
use strongclaw.Result.{Result, ◌>>=◌, ◌>>◌}
use strongclaw.Journal.Rows.{Operation, Journal}
use strongclaw.Journal.Status.{validate_transition}
use strongclaw.Journal.Tables.{get_op, write_op}

-- A keyword argument whose default is the sentinel `_UNSET`.
pub data Change {ℓ} (A : Type ℓ) : Type ℓ where
  unset : Change A
  to : A → Change A

-- old if arg is _UNSET else arg
unfoldable pub pick {ℓ} : {A : Type ℓ} → Change A → A → A
pick unset old = old
pick (to new) old = new

-- int(bool(x))
abbrev pub flag : Bool → ℕ
flag true = 1
flag false = 0

-- bool(x) of a stored flag
abbrev pub is_set : ℕ → Bool
is_set n = not (eqb n 0)

-- old if arg is _UNSET else int(bool(arg))
unfoldable pub pick_flag : Change Bool → ℕ → ℕ
pick_flag unset old = old
pick_flag (to new) old = flag new

-- old if arg is _UNSET else (None if arg is None else int(bool(arg)))
unfoldable pub pick_optional_flag : Change (Option Bool) → Option ℕ → Option ℕ
pick_optional_flag unset old = old
pick_optional_flag (to none) old = none
pick_optional_flag (to (some new)) old = some (flag new)

pub record Changes : Type 0 where
  pub error : Change (Option String)
  pub policy_decision : Change (Option String)
  pub policy_decision_json : Change (Option String)
  pub execution_contract_version : Change (Option ℕ)
  pub execution_contract_json : Change (Option String)
  pub approval_required : Change Bool
  pub review_mode : Change (Option String)
  pub review_target : Change (Option String)
  pub review_status : Change (Option String)
  pub reviewed_by : Change (Option String)
  pub reviewed_at_ms : Change (Option ℕ)
  pub review_note : Change (Option String)
  pub review_artifact_path : Change (Option String)
  pub review_payload_json : Change (Option String)
  pub result_ok : Change (Option Bool)
  pub result_status_code : Change (Option ℤ)
  pub result_body_excerpt : Change (Option String)
  pub result_error_type : Change (Option String)
  pub result_error_retryable : Change (Option Bool)
  pub result_request_method : Change (Option String)
  pub result_request_url : Change (Option String)
  pub result_request_attempts : Change (Option ℕ)
  pub result_request_id : Change (Option String)
  pub result_retry_after_seconds : Change (Option ℕ)

-- the defaults
abbrev pub no_changes : Changes
no_changes = record {
  error = unset;
  policy_decision = unset;
  policy_decision_json = unset;
  execution_contract_version = unset;
  execution_contract_json = unset;
  approval_required = unset;
  review_mode = unset;
  review_target = unset;
  review_status = unset;
  reviewed_by = unset;
  reviewed_at_ms = unset;
  review_note = unset;
  review_artifact_path = unset;
  review_payload_json = unset;
  result_ok = unset;
  result_status_code = unset;
  result_body_excerpt = unset;
  result_error_type = unset;
  result_error_retryable = unset;
  result_request_method = unset;
  result_request_url = unset;
  result_request_attempts = unset;
  result_request_id = unset;
  result_retry_after_seconds = unset;
}

-- 1 if status == "running" and current_status != "running" else 0
unfoldable pub attempt_increment : String → String → ℕ
attempt_increment status current =
    if status == "running" && not (current == "running") then 1 else 0

-- The UPDATE: the columns that it does not name stay.
unfoldable pub transition_row : ℕ → String → Changes → Operation → Operation
unfolding pick pick_flag pick_optional_flag attempt_increment
transition_row now status c row = record row {
  updated_at_ms = now;
  status = status;
  attempt = row.attempt + attempt_increment status row.status;
  last_error = pick c.error row.last_error;
  policy_decision = pick c.policy_decision row.policy_decision;
  policy_decision_json = pick c.policy_decision_json row.policy_decision_json;
  execution_contract_version = pick c.execution_contract_version row.execution_contract_version;
  execution_contract_json = pick c.execution_contract_json row.execution_contract_json;
  approval_required = pick_flag c.approval_required row.approval_required;
  review_mode = pick c.review_mode row.review_mode;
  review_target = pick c.review_target row.review_target;
  review_status = pick c.review_status row.review_status;
  reviewed_by = pick c.reviewed_by row.reviewed_by;
  reviewed_at_ms = pick c.reviewed_at_ms row.reviewed_at_ms;
  review_note = pick c.review_note row.review_note;
  review_artifact_path = pick c.review_artifact_path row.review_artifact_path;
  review_payload_json = pick c.review_payload_json row.review_payload_json;
  result_ok = pick_optional_flag c.result_ok row.result_ok;
  result_status_code = pick c.result_status_code row.result_status_code;
  result_body_excerpt = pick c.result_body_excerpt row.result_body_excerpt;
  result_error_type = pick c.result_error_type row.result_error_type;
  result_error_retryable = pick_optional_flag c.result_error_retryable row.result_error_retryable;
  result_request_method = pick c.result_request_method row.result_request_method;
  result_request_url = pick c.result_request_url row.result_request_url;
  result_request_attempts = pick c.result_request_attempts row.result_request_attempts;
  result_request_id = pick c.result_request_id row.result_request_id;
  result_retry_after_seconds = pick c.result_retry_after_seconds row.result_retry_after_seconds;
}

unfoldable pub transition : ℕ → String → String → Changes → Journal → Result (Operation × Journal)
transition now op_id status changes j = do
  row ← get_op op_id j
  validate_transition row.status status
  write_op op_id (transition_row now status changes) j
