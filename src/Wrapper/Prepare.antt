-- ===== src/Wrapper/Prepare.antt =====
-- `prepare_operation` and `ensure_execution_contract` of src/clawops/wrappers/base.py.
pub mod DryRun
pub mod Verdict
use strongclaw.Prelude.{
  ℕ, Bool, true, false, ◌&&◌, ◌||◌, not, Option, none, some, [], ◌∷◌, ◌==◌, if◌then◌else◌, contains,
  is_some,
}
use strongclaw.Value.{Fields, end, field}
use strongclaw.Runtime.{Runtime}
use strongclaw.Result.{ok, err, denied_contract}
use strongclaw.Journal.Rows.{Operation}
use strongclaw.Journal.Begin.{Request, begin}
use strongclaw.Journal.Transition.{Changes, to, no_changes, is_set, transition}
use strongclaw.Journal.Review.{encode_payload}
use strongclaw.Policy.Decision.{Decision, review_payload}
use strongclaw.Policy.Evaluate.{evaluate}
use strongclaw.Wrapper.Contract.{
  contract_version, build_contract, contract_to_json, contract_from_operation, decision_to_json,
  decision_from_operation,
}
use strongclaw.Wrapper.Results.{
  WrapperResult, no_details, result_from_operation, replay_result_from_operation,
}
use strongclaw.Wrapper.Dispatch.{Desk, DispatchOutcome, dispatch_pending_approval}
use strongclaw.Wrapper.Session.{Session, call, lift, ◌>>=◌}

pub record PreparedOperation : Type 0 where
  pub operation : Operation
  pub decision : Option Decision
  pub result : Option WrapperResult
  pub dispatch : Option DispatchOutcome
  pub should_execute : Bool

-- The policy decision and the contract, as the columns of a transition.
unfoldable pub contract_changes : Runtime → Operation → Decision → Changes
contract_changes rt op d = record no_changes {
  policy_decision = to (some d.decision);
  policy_decision_json = to (some (decision_to_json rt d));
  execution_contract_version = to (some contract_version);
  execution_contract_json = to (some (contract_to_json rt (build_contract op d)));
}

-- the keyword arguments of the three transitions of `prepare_operation`
unfoldable pub denied_changes : Runtime → Decision → Changes
denied_changes rt d = record no_changes {
  error = to (some "policy denied");
  policy_decision = to (some d.decision);
  policy_decision_json = to (some (decision_to_json rt d));
  approval_required = to false;
  result_ok = to (some false);
}

unfoldable pub pending_changes : Runtime → Operation → Decision → Changes
pending_changes rt op d = record (contract_changes rt op d) {
  approval_required = to true;
  review_mode = to d.review_mode;
  review_target = to d.review_target;
  review_status = to (some "pending");
  review_payload_json = to (encode_payload rt (review_payload d));
}

unfoldable pub allowed_changes : Runtime → Operation → Decision → Changes
allowed_changes rt op d = record (contract_changes rt op d) { approval_required = to false }

-- bool(policy)
unfoldable pub has_policy : Fields → Bool
has_policy end = false
has_policy (field k v fs) = true

module _ (rt : Runtime) (policy : Fields) where
  -- the transition of `ensure_execution_contract`
  unfoldable pub backfill_changes : Operation → Decision → Changes
  backfill_changes op d = record (contract_changes rt op d) {
    approval_required = to (is_set op.approval_required || d.decision == "require_approval");
    review_mode = to d.review_mode;
    review_target = to d.review_target;
    review_status = to (
        if op.status == "pending_approval" && d.decision == "require_approval"
        then some "pending"
        else op.review_status);
    review_payload_json = to (encode_payload rt (review_payload d));
  }

  -- `ensure_execution_contract`, given a payload for the policy
  unfoldable pub ensure_execution_contract :
      ℕ → Operation → Fields → Session (Operation × Option Decision)
  ensure_execution_contract now op payload = lift (decision_from_operation rt op) >>= λ stored.
      if is_some (contract_from_operation rt op) || not (has_policy policy)
      then lift (ok (op, stored))
      else let d = evaluate rt policy payload in
        if d.decision == "deny"
        then lift (err (denied_contract op.op_id))
        else (call (transition now op.op_id op.status (backfill_changes op d)) >>= λ updated.
            lift (ok (updated, some d)))

  module _ (desk : Desk) (dry_run : Bool) (first second third : ℕ) (payload : Fields) where
    -- the dispatch of an operation that is pending approval
    unfoldable pub dispatch_if_pending : Operation → Session (Operation × Option DispatchOutcome)
    dispatch_if_pending op =
        if op.status == "pending_approval"
        then (dispatch_pending_approval desk third op >>= λ d. lift (ok (d.operation, some d)))
        else lift (ok (op, none))

    -- an operation that had been begun before
    unfoldable pub prepare_existing : Operation → Session PreparedOperation
    prepare_existing op = lift (decision_from_operation rt op) >>= λ stored.
        (if contains ("pending_approval" ∷ "approved" ∷ "running" ∷ []) op.status
          then ensure_execution_contract second op payload
          else lift (ok (op, stored)))
        >>= λ ensured. dispatch_if_pending ensured.0 >>= λ sent. lift (
            ok (record {
              operation = sent.0;
              decision = ensured.1;
              result = replay_result_from_operation sent.0 ensured.1 dry_run;
              dispatch = sent.1;
              should_execute = sent.0.status == "approved" && not dry_run;
            }))

    unfoldable pub prepare_denied : Operation → Decision → Session PreparedOperation
    prepare_denied op d =
        call (transition second op.op_id "failed" (denied_changes rt d)) >>= λ updated. lift (
          ok (record {
            operation = updated;
            decision = some d;
            result =
                some (result_from_operation updated (some d) false false false false no_details);
            dispatch = none;
            should_execute = false;
          }))

    unfoldable pub prepare_pending : Operation → Decision → Session PreparedOperation
    prepare_pending op d =
        call (transition second op.op_id "pending_approval" (pending_changes rt op d))
        >>= λ updated. dispatch_pending_approval desk third updated >>= λ sent. lift (
            ok (record {
              operation = sent.operation;
              decision = some d;
              result =
                  some (
                    result_from_operation sent.operation (some d) true true false false no_details);
              dispatch = some sent;
              should_execute = false;
            }))

    unfoldable pub prepare_allowed : Operation → Decision → Session PreparedOperation
    prepare_allowed op d =
        call (transition second op.op_id "approved" (allowed_changes rt op d)) >>= λ updated. lift (
          ok (record {
            operation = updated;
            decision = some d;
            result =
                if dry_run
                then some (result_from_operation updated (some d) true true false true no_details)
                else none;
            dispatch = none;
            should_execute = not dry_run;
          }))

    -- an operation that has just been begun
    unfoldable pub prepare_proposed : Operation → Decision → Session PreparedOperation
    prepare_proposed op d =
        if d.decision == "deny"
        then prepare_denied op d
        else if d.decision == "require_approval"
        then prepare_pending op d
        else prepare_allowed op d

    unfoldable pub prepare_operation : Request → Session PreparedOperation
    prepare_operation request = call (begin rt first request) >>= λ op.
        if op.status == "proposed"
        then prepare_proposed op (evaluate rt policy payload)
        else prepare_existing op
