-- ===== src/Wrapper/Execute/Replays.antt =====
-- `replay_result_from_operation` on the rows that `execute_http_operation` of
-- src/clawops/wrappers/base.py stores.
use strongclaw.Prelude.Int.{ℤ}
use strongclaw.Prelude.{
  ℕ, ◌<◌, ◌≡◌, refl, Bool, true, false, Option, none, some, inl, inr, eqb, ltb, lt→ltb, Bool-cases,
  arith,
}
use strongclaw.Journal.Rows.{Operation}
use strongclaw.Journal.Transition.{
  Change, Changes, attempt_increment, flag, is_set, pick, pick_optional_flag, transition_row,
}
use strongclaw.Policy.Decision.{Decision}
use strongclaw.Wrapper.Results.{
  or_column, stored_ok, is_denied, was_accepted, build_error_payload, result_from_operation,
  replay_result_from_operation,
}
use strongclaw.Wrapper.Requests.{HttpResponseOutcome, WrapperTransportError}
use strongclaw.Wrapper.Execute.{failure_changes, failure_details, success_changes, success_details}

or_column_self {ℓ} : {A : Type ℓ} (o : Option A) → or_column o o ≡ o
unfolding or_column
or_column_self none = refl
or_column_self (some a) = refl

stored_flag-flag : (b : Bool) → is_set (flag b) ≡ b
stored_flag-flag true = refl
stored_flag-flag false = refl

-- The row that a success stores replays the result that was returned.
pub replay_success :
    (now : ℕ) (o : HttpResponseOutcome) (decision : Option Decision) (p : Operation)
    → let q = transition_row now "succeeded" (success_changes o) p in
      replay_result_from_operation q decision false
      ≡ some (result_from_operation q decision true true true false (success_details o))
unfolding replay_result_from_operation result_from_operation transition_row success_changes
    success_details pick pick_optional_flag stored_ok or_column
replay_success now o decision p =
    rw (or_column_self o.request_id, or_column_self o.retry_after_seconds) refl

accepted : (op : Operation) → 0 < op.attempt → was_accepted op ≡ true
unfolding was_accepted
accepted op h =
    let tried : eqb op.attempt 0 ≡ false = ground arith in
    elim (Bool-cases (is_denied op.policy_decision)) [
      | inl e ↦ rw (e, tried) refl
      | inr e ↦ rw e refl
    ]

-- the changes of a failure, with what its handler does about the status code
abbrev pub failure : WrapperTransportError → Change (Option ℤ) → Changes
failure e code = record (failure_changes e) { result_status_code = code }

-- The row that a failure stores replays the result that was returned.
pub replay_failure :
    (now : ℕ) (e : WrapperTransportError) (code : Change (Option ℤ)) (decision : Option Decision)
    (p : Operation)
    → 0 < p.attempt
    → pick code p.result_status_code ≡ e.status_code
    → let q = transition_row now "failed" (failure e code) p in
      replay_result_from_operation q decision false
      ≡ some (result_from_operation q decision false true true false (failure_details e))
unfolding replay_result_from_operation result_from_operation transition_row failure_changes
    failure_details pick pick_optional_flag or_column attempt_increment build_error_payload
replay_failure now e code decision p tried same_code =
    let q = transition_row now "failed" (failure e code) p in
    let yes = accepted q (omega arith) in
    let ran : ltb 0 q.attempt ≡ true = lt→ltb 0 q.attempt (omega arith) in
    rw
      (
        yes,
        ran,
        stored_flag-flag e.retryable,
        same_code,
        or_column_self e.status_code,
        or_column_self e.request_id,
        or_column_self e.retry_after_seconds,
      )
      refl
