-- ===== src/Journal/Begin.antt =====
-- `OperationJournal.begin` (src/clawops/op_journal.py): start an operation, or find the one that
-- has the same inputs. `now` is what `utc_now_ms` returns.
pub mod Idempotent
use strongclaw.Prelude.{ℕ, String, ◌<>◌, Option, none, some, List}
use strongclaw.Prelude.Text.{show_nat, take_text}
use strongclaw.Value.{str, obj, Fields, end, field}
use strongclaw.Runtime.{Runtime}
use strongclaw.Result.{Result, ok, err, ◌>>=◌}
use strongclaw.Journal.Rows.{Operation, Journal}
use strongclaw.Journal.Tables.{find_op, find_key, insert_op, read_back}

-- The arguments of the call.
pub record Request : Type 0 where
  pub scope : String
  pub kind : String
  pub trust_zone : String
  pub normalized_target : String
  pub inputs : Fields

module _ (rt : Runtime) where
  -- The digest by which equal requests are found: the trust zone is no part of it.
  unfoldable pub idempotency_key : Request → String
  idempotency_key r = rt.sha256_hex (
      rt.canonical_json (
        obj (
          field "scope" (str r.scope) (
            field "kind" (str r.kind)
              (field "target" (str r.normalized_target) (field "inputs" (obj r.inputs) end))))))

  unfoldable pub op_id_at : ℕ → Request → String
  op_id_at now r = take_text 24 (
      rt.sha256_hex (r.scope <> ":" <> r.kind <> ":" <> r.normalized_target <> ":" <> show_nat now))

  -- The row of the INSERT; the columns that it leaves out are NULL.
  unfoldable pub new_row : ℕ → Request → Operation
  new_row now r = record {
    op_id = op_id_at now r;
    created_at_ms = now;
    updated_at_ms = now;
    scope = r.scope;
    idempotency_key = idempotency_key r;
    kind = r.kind;
    trust_zone = r.trust_zone;
    normalized_target = r.normalized_target;
    inputs_json = rt.canonical_json (obj r.inputs);
    inputs_hash = rt.sha256_hex (rt.canonical_json (obj r.inputs));
    status = "proposed";
    attempt = 0;
    last_error = none;
    compensation_state = none;
    policy_decision = none;
    policy_decision_json = none;
    execution_contract_version = none;
    execution_contract_json = none;
    approval_required = 0;
    approved_by = none;
    approved_at_ms = none;
    approval_note = none;
    review_mode = none;
    review_target = none;
    review_status = none;
    reviewed_by = none;
    reviewed_at_ms = none;
    review_note = none;
    review_artifact_path = none;
    review_payload_json = none;
    result_ok = none;
    result_status_code = none;
    result_body_excerpt = none;
    result_error_type = none;
    result_error_retryable = none;
    result_request_method = none;
    result_request_url = none;
    result_request_attempts = none;
    result_request_id = none;
    result_retry_after_seconds = none;
  }

  -- the INSERT, the commit and the SELECT that reads the row back
  unfoldable pub create : Operation → Journal → Result (Operation × Journal)
  create row j = do
    ops ← insert_op row j.ops
    let j' = record j { ops = ops }
    read_back (find_op row.op_id ops) j'

  unfoldable pub deduplicate : Option Operation → Operation → Journal → Result (Operation × Journal)
  unfolding create
  deduplicate none row j = create row j
  deduplicate (some existing) row j = ok (existing, j)

  unfoldable pub begin : ℕ → Request → Journal → Result (Operation × Journal)
  unfolding deduplicate
  begin now r j = deduplicate (find_key r.scope (idempotency_key r) j.ops) (new_row now r) j
