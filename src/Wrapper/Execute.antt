-- ===== src/Wrapper/Execute.antt =====
-- `execute_http_operation` of src/clawops/wrappers/base.py. Its journal outlives what it raises: the
-- row is running when the request is sent. The request is a function of the journal, which returns
-- its reply with the journal as other processes have left it meanwhile.
pub mod Gate
pub mod Hazards
pub mod Replays
pub mod Settled
use strongclaw.Prelude.Int.{pos}
use strongclaw.Prelude.{ℕ, String, Bool, true, false, Option, none, some, ◌==◌, if◌then◌else◌}
use strongclaw.Prelude.Text.{take_text}
use strongclaw.Runtime.{Runtime}
use strongclaw.Result.{
  Result, ok, err, not_executable, missing_contract, contract_mismatch, request_raised,
}
use strongclaw.Journal.Rows.{Operation, Journal}
use strongclaw.Journal.Transition.{Changes, to, no_changes, transition}
use strongclaw.Policy.Decision.{Decision}
use strongclaw.Wrapper.Contract.{ExecutionContract, matches, contract_from_operation}
use strongclaw.Wrapper.Results.{
  WrapperResult, Details, no_details, build_error_payload, result_from_operation,
  replay_result_from_operation,
}
use strongclaw.Wrapper.Requests.{
  HttpResponseOutcome, Reply, outcome, raw_response, transport_error, request_exception, other,
  WrapperTransportError, coerce_response, status_error, from_exception, error_message,
}

-- What an execution ends with: its result or what it raises, the journal, and the number of times
-- that it called `request`.
pub record Execution : Type 0 where
  pub returned : Result WrapperResult
  pub journal : Journal
  pub sent : ℕ

-- the keyword arguments of the transition to "failed"; the handler of `requests.RequestException`
-- does not name the status code
unfoldable pub failure_changes : WrapperTransportError → Changes
failure_changes e = record no_changes {
  error = to (some (take_text 500 (error_message e)));
  result_ok = to (some false);
  result_body_excerpt = to (some (take_text 1000 (error_message e)));
  result_error_type = to (some e.error_type);
  result_error_retryable = to (some e.retryable);
  result_request_method = to (some e.method);
  result_request_url = to (some e.url);
  result_request_attempts = to (some e.request_attempts);
  result_request_id = to e.request_id;
  result_retry_after_seconds = to e.retry_after_seconds;
}

-- the keyword arguments of the result of a failure
unfoldable pub failure_details : WrapperTransportError → Details
failure_details e = record {
  status_code = e.status_code;
  body = some (take_text 1000 (error_message e));
  error = build_error_payload (record {
    type = some e.error_type;
    message = some (take_text 1000 (error_message e));
    status_code = e.status_code;
    retryable = some e.retryable;
    request_method = some e.method;
    request_url = some e.url;
    request_attempts = some e.request_attempts;
    request_id = e.request_id;
    retry_after_seconds = e.retry_after_seconds;
  });
  error_type = some e.error_type;
  retryable = some e.retryable;
  request_method = some e.method;
  request_url = some e.url;
  request_attempts = some e.request_attempts;
  request_id = e.request_id;
  retry_after_seconds = e.retry_after_seconds;
}

-- the keyword arguments of the transition to "succeeded"
unfoldable pub success_changes : HttpResponseOutcome → Changes
success_changes o = record no_changes {
  result_ok = to (some true);
  result_status_code = to (some (pos o.response.status_code));
  result_body_excerpt = to (some (take_text 1000 o.response.text));
  result_request_method = to (some o.request_method);
  result_request_url = to (some o.request_url);
  result_request_attempts = to (some o.request_attempts);
  result_request_id = to o.request_id;
  result_retry_after_seconds = to o.retry_after_seconds;
}

-- the keyword arguments of the result of a success
unfoldable pub success_details : HttpResponseOutcome → Details
success_details o = record no_details {
  status_code = some (pos o.response.status_code);
  body = some (take_text 1000 o.response.text);
  request_method = some o.request_method;
  request_url = some o.request_url;
  request_attempts = some o.request_attempts;
  request_id = o.request_id;
  retry_after_seconds = o.retry_after_seconds;
}

module _ (rt : Runtime) (op : Operation) (decision : Option Decision) where
  -- what follows the transition that records a reply
  unfoldable pub report : Bool → Details → Journal → Result (Operation × Journal) → Execution
  report succeeded details j (err e) = record { returned = err e; journal = j; sent = 1 }
  report succeeded details j (ok (completed, j')) = record {
    returned = ok (result_from_operation completed decision succeeded true true false details);
    journal = j';
    sent = 1;
  }

  -- the two handlers, and the end of the function
  unfoldable pub record_failure : ℕ → String → Changes → WrapperTransportError → Journal → Execution
  unfolding report
  record_failure now id changes e j =
      report false (failure_details e) j (transition now id "failed" changes j)

  unfoldable pub record_outcome : ℕ → String → HttpResponseOutcome → Journal → Execution
  unfolding record_failure
  record_outcome now id o j =
      let failed = status_error rt o in
      if o.response.ok
      then report true (success_details o) j (transition now id "succeeded" (success_changes o) j)
      else record_failure now id
          (record (failure_changes failed) { result_status_code = to failed.status_code }) failed j

  unfoldable pub record_reply : ℕ → String → Reply → Journal → Execution
  unfolding record_outcome
  record_reply now id (outcome o) j = record_outcome now id o j
  record_reply now id (raw_response r) j = record_outcome now id (coerce_response r) j
  record_reply now id (transport_error e) j =
      record_failure now id (record (failure_changes e) { result_status_code = to e.status_code }) e
        j
  record_reply now id (request_exception class message) j =
      let e = from_exception class message "UNKNOWN" op.normalized_target false 1 in
      record_failure now id (failure_changes e) e j
  record_reply now id (other message) j = record {
    returned = err (request_raised message);
    journal = j;
    sent = 1;
  }

  -- a call that raises before it sends
  abbrev pub stop : Journal → Result WrapperResult → Execution
  stop j r = record { returned = r; journal = j; sent = 0 }

  module _ (start finish : ℕ) (request : Journal → Reply × Journal) where
    -- after the transition to "running"
    unfoldable pub send : Journal → Result (Operation × Journal) → Execution
    unfolding record_reply
    send j (err e) = stop j (err e)
    send j (ok (running, j')) =
        let replied = request j' in record_reply finish running.op_id replied.0 replied.1

    -- `if contract is None` and `if not contract.matches(op)`
    unfoldable pub check_contract : Option ExecutionContract → Journal → Execution
    unfolding send
    check_contract none j = stop j (err (missing_contract op.op_id))
    check_contract (some contract) j =
        if matches contract op
        then send j (transition start op.op_id "running" no_changes j)
        else stop j (err (contract_mismatch op.op_id))

    unfoldable pub check_status : Option WrapperResult → Journal → Execution
    unfolding check_contract
    check_status (some existing) j = stop j (ok existing)
    check_status none j =
        if op.status == "approved"
        then check_contract (contract_from_operation rt op) j
        else stop j (err (not_executable op.op_id op.status))

    unfoldable pub execute_http_operation : Journal → Execution
    unfolding check_status
    execute_http_operation j = check_status (replay_result_from_operation op decision false) j
