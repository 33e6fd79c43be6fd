-- ===== src/Wrapper/Results.antt =====
-- The results that the wrappers of src/clawops/wrappers/base.py return. A member of a dictionary
-- that the code leaves out is `none`.
use strongclaw.Prelude.Int.{ℤ}
use strongclaw.Prelude.{
  ℕ, String, Bool, true, false, ◌&&◌, ◌||◌, not, Option, none, some, ◌==◌, eqb, ltb, if◌then◌else◌,
  is_some,
}
use strongclaw.Value.{Fields}
use strongclaw.Journal.Rows.{Operation}
use strongclaw.Journal.Transition.{is_set}
use strongclaw.Policy.Decision.{Decision, decision_to_dict}

-- the dictionary of `_build_error_payload`
pub record ErrorPayload : Type 0 where
  pub type : Option String
  pub message : Option String
  pub status_code : Option ℤ
  pub retryable : Option Bool
  pub request_method : Option String
  pub request_url : Option String
  pub request_attempts : Option ℕ
  pub request_id : Option String
  pub retry_after_seconds : Option ℕ

pub record WrapperResult : Type 0 where
  pub ok : Bool
  pub accepted : Bool
  pub executed : Bool
  pub status : String
  pub op_id : String
  pub decision : Option Fields
  pub dry_run : Bool
  pub status_code : Option ℤ
  pub body : Option String
  pub error : Option ErrorPayload
  pub error_type : Option String
  pub retryable : Option Bool
  pub request_method : Option String
  pub request_url : Option String
  pub request_attempts : Option ℕ
  pub request_id : Option String
  pub retry_after_seconds : Option ℕ

-- `_build_error_payload`
unfoldable pub build_error_payload : ErrorPayload → Option ErrorPayload
build_error_payload p =
    if is_some p.type
      || is_some p.message
      || is_some p.status_code
      || is_some p.retryable
      || is_some p.request_method
      || is_some p.request_url
      || is_some p.request_attempts
      || is_some p.request_id
      || is_some p.retry_after_seconds
    then some p
    else none

-- column if arg is None else arg
unfoldable pub or_column {ℓ} : {A : Type ℓ} → Option A → Option A → Option A
or_column none column = column
or_column (some a) column = some a

-- `_result_error_retryable`, of the column
unfoldable pub stored_flag : Option ℕ → Option Bool
stored_flag none = none
stored_flag (some n) = some (is_set n)

-- None if decision is None else decision.to_dict()
unfoldable pub decision_fields : Option Decision → Option Fields
decision_fields none = none
decision_fields (some d) = some (decision_to_dict d)

-- The keyword arguments of `result_from_operation` that default to None.
pub record Details : Type 0 where
  pub status_code : Option ℤ
  pub body : Option String
  pub error : Option ErrorPayload
  pub error_type : Option String
  pub retryable : Option Bool
  pub request_method : Option String
  pub request_url : Option String
  pub request_attempts : Option ℕ
  pub request_id : Option String
  pub retry_after_seconds : Option ℕ

abbrev pub no_details : Details
no_details = record {
  status_code = none;
  body = none;
  error = none;
  error_type = none;
  retryable = none;
  request_method = none;
  request_url = none;
  request_attempts = none;
  request_id = none;
  retry_after_seconds = none;
}

-- the error of a result: the argument, or one built from the resolved members
unfoldable pub resolve_error : Option ErrorPayload → ErrorPayload → Option ErrorPayload
unfolding build_error_payload
resolve_error none p = if is_some p.type then build_error_payload p else none
resolve_error (some e) p = some e

unfoldable pub result_from_operation :
    Operation → Option Decision → Bool → Bool → Bool → Bool → Details → WrapperResult
unfolding or_column stored_flag decision_fields resolve_error
result_from_operation op decision ok accepted executed dry_run d =
    let resolved : ErrorPayload = record {
      type = or_column d.error_type op.result_error_type;
      message = or_column d.body op.result_body_excerpt;
      status_code = or_column d.status_code op.result_status_code;
      retryable = or_column d.retryable (stored_flag op.result_error_retryable);
      request_method = or_column d.request_method op.result_request_method;
      request_url = or_column d.request_url op.result_request_url;
      request_attempts = or_column d.request_attempts op.result_request_attempts;
      request_id = or_column d.request_id op.result_request_id;
      retry_after_seconds = or_column d.retry_after_seconds op.result_retry_after_seconds;
    } in
    record {
      ok = ok;
      accepted = accepted;
      executed = executed;
      status = op.status;
      op_id = op.op_id;
      decision = decision_fields decision;
      dry_run = dry_run;
      status_code = resolved.status_code;
      body = resolved.message;
      error = resolve_error d.error resolved;
      error_type = resolved.type;
      retryable = resolved.retryable;
      request_method = resolved.request_method;
      request_url = resolved.request_url;
      request_attempts = resolved.request_attempts;
      request_id = resolved.request_id;
      retry_after_seconds = resolved.retry_after_seconds;
    }

-- True if op.result_ok is None else bool(op.result_ok)
unfoldable pub stored_ok : Option ℕ → Bool
stored_ok none = true
stored_ok (some n) = is_set n

-- op.policy_decision == "deny"
unfoldable pub is_denied : Option String → Bool
is_denied none = false
is_denied (some d) = d == "deny"

-- the members that a replay takes from the row
abbrev pub stored_details : Operation → Details
stored_details op = record no_details {
  status_code = op.result_status_code;
  body = op.result_body_excerpt;
}

-- not (op.policy_decision == TERMINAL_DENY and op.attempt == 0)
unfoldable pub was_accepted : Operation → Bool
unfolding is_denied
was_accepted op = not (is_denied op.policy_decision && eqb op.attempt 0)

unfoldable pub replay_result_from_operation :
    Operation → Option Decision → Bool → Option WrapperResult
unfolding was_accepted
replay_result_from_operation op decision dry_run =
    if op.status == "pending_approval"
    then some (result_from_operation op decision true true false false no_details)
    else if op.status == "running"
    then some (result_from_operation op decision true true false false no_details)
    else if op.status == "approved" && dry_run
    then some (result_from_operation op decision true true false true no_details)
    else if op.status == "succeeded"
    then some (
        result_from_operation op decision (stored_ok op.result_ok) true true false
          (stored_details op))
    else if op.status == "failed"
    then some (
        result_from_operation op decision false (was_accepted op)
          (was_accepted op && ltb 0 op.attempt) false (stored_details op))
    else if op.status == "cancelled"
    then some (result_from_operation op decision false true false false no_details)
    else none
