-- ===== src/Wrapper/Prepare/Verdict.antt =====
-- What `prepare_operation` of src/clawops/wrappers/base.py does with an operation that it has just
-- begun, by the verdict of the policy.
use strongclaw.Prelude.{
  ℕ, String, ◌≡◌, refl, sym, subst, ap, ◌∙◌, ◌⊎◌, inr, Bool, true, false, not, some, ◌==◌,
}
use strongclaw.Value.Sorted.{sort_keys}
use strongclaw.Value.{Fields, obj}
use strongclaw.Runtime.{Runtime}
use strongclaw.Result.{Result, ok}
use strongclaw.Journal.Rows.{Operation, Journal}
use strongclaw.Journal.Status.Edges.{Edge}
use strongclaw.Journal.Begin.{Request, begin}
use strongclaw.Journal.Tables.{find_op, update_op}
use strongclaw.Journal.Tables.Laws.{find_op-update}
use strongclaw.Journal.Transition.{Changes, pick, transition, transition_row}
use strongclaw.Journal.Transition.Exact.{transition_exact}
use strongclaw.Policy.Decision.{Decision}
use strongclaw.Policy.Evaluate.{evaluate}
use strongclaw.Wrapper.Contract.{build_contract, contract_to_json, contract_to_dict}
use strongclaw.Wrapper.Contract.RoundTrip.{contract_round_trip}
use strongclaw.Wrapper.Results.{WrapperResult, result_from_operation}
use strongclaw.Wrapper.Session.{lift, after, ◌>>=◌, call-eq}
use strongclaw.Wrapper.Prepare.{
  PreparedOperation, contract_changes, denied_changes, allowed_changes, pending_changes,
  prepare_pending, prepare_denied, prepare_allowed, prepare_proposed, prepare_operation,
}
use strongclaw.Wrapper.Dispatch.{Desk, DispatchOutcome, artifact_path, dispatch_pending_approval}
use strongclaw.Wrapper.Execute.Gate.{Executable}
use strongclaw.Wrapper.Dispatch.Waits.{register_waits}

-- A preparation that returned an operation to execute: the operation is executable.
pub record Cleared (rt : Runtime) (r : Result PreparedOperation × Journal) : Type 0 where
  pub prepared : PreparedOperation
  pub returned : r.0 ≡ ok prepared
  pub to_execute : prepared.should_execute ≡ true
  pub ready : Executable rt prepared.operation r.1

-- A preparation that returned a refusal, and stored it.
pub record Refused (r : Result PreparedOperation × Journal) : Type 0 where
  pub prepared : PreparedOperation
  pub returned : r.0 ≡ ok prepared
  pub not_executed : prepared.should_execute ≡ false
  pub result : WrapperResult
  pub reported : prepared.result ≡ some result
  pub refused : (result.ok ≡ false) × (result.accepted ≡ false) × (result.executed ≡ false)
  pub stored : find_op prepared.operation.op_id r.1.ops ≡ some prepared.operation
  pub final : prepared.operation.status ≡ "failed"

-- A preparation that returned an operation that waits for approval, and stored it.
pub record Asked (r : Result PreparedOperation × Journal) : Type 0 where
  pub prepared : PreparedOperation
  pub returned : r.0 ≡ ok prepared
  pub not_executed : prepared.should_execute ≡ false
  pub dispatched : DispatchOutcome
  pub reported : prepared.dispatch ≡ some dispatched
  pub stored : find_op prepared.operation.op_id r.1.ops ≡ some prepared.operation
  pub waiting : prepared.operation.status ≡ "pending_approval"

proposed_move : (s t : String) → s ≡ "proposed" → Edge "proposed" t → (s ≡ t) ⊎ Edge s t
proposed_move s t proposed edge = rw proposed (inr edge)

module _ (now : ℕ) (op : Operation) (j : Journal) (found : find_op op.op_id j.ops ≡ some op)
    (proposed : op.status ≡ "proposed") where
  moves :
      (status : String) (c : Changes)
      → Edge "proposed" status
      → transition now op.op_id status c j
        ≡ ok (
          transition_row now status c op,
          record j { ops = update_op op.op_id (transition_row now status c) j.ops },
        )
  moves status c edge =
      (transition_exact now op.op_id status c j op found).0
        (proposed_move op.status status proposed edge)

  stored_row :
      (status : String) (c : Changes)
      → find_op op.op_id (update_op op.op_id (transition_row now status c) j.ops)
        ≡ some (transition_row now status c op)
  stored_row status c =
      find_op-update op.op_id (transition_row now status c) (unfold transition_row in λ o. refl)
        j.ops op found

module _ (rt : Runtime) (policy : Fields) (desk : Desk) (dry_run : Bool) (first second third : ℕ)
    (payload : Fields) (op : Operation) where
  module _ (d : Decision) (j : Journal) (found : find_op op.op_id j.ops ≡ some op)
      (proposed : op.status ≡ "proposed") where
    allowed_Cleared :
        dry_run ≡ false
        → rt.loads (contract_to_json rt (build_contract op d))
          ≡ some (sort_keys (obj (contract_to_dict (build_contract op d))))
        → Cleared rt (prepare_allowed rt policy desk dry_run first second third payload op d j)
    unfolding prepare_allowed lift
    allowed_Cleared wet loads =
        let c = allowed_changes rt op d in
        let row = transition_row second "approved" c op in
        let fits =
          contract_round_trip rt op row d (unfold transition_row in refl)
            (unfold transition_row in
              unfold allowed_changes in unfold contract_changes in unfold pick in refl)
            (unfold transition_row in
              unfold allowed_changes in unfold contract_changes in unfold pick in refl)
            (unfold transition_row in
              unfold allowed_changes in unfold contract_changes in unfold pick in refl)
            loads in
        subst (Cleared rt)
          (sym (call-eq _ _ j (moves second op j found proposed "approved" c Edge.allow)))
          (record {
            prepared = _;
            returned = refl;
            to_execute = ap not wet;
            ready = record {
              approved = unfold transition_row in refl;
              contract = build_contract op d;
              loaded = fits.0;
              matching = fits.1;
              stored = row;
              found = unfold transition_row in stored_row second op j found proposed "approved" c;
              may_run = inr (unfold transition_row in refl);
            };
          })

    denied_Refused :
        Refused (prepare_denied rt policy desk dry_run first second third payload op d j)
    unfolding prepare_denied lift
    denied_Refused =
        let c = denied_changes rt d in
        subst Refused (sym (call-eq _ _ j (moves second op j found proposed "failed" c Edge.deny)))
          (record {
            prepared = _;
            returned = refl;
            not_executed = refl;
            result = _;
            reported = refl;
            refused = unfold result_from_operation in (refl, refl, refl);
            stored = unfold transition_row in stored_row second op j found proposed "failed" c;
            final = unfold transition_row in refl;
          })

    pending_Asked : Asked (prepare_pending rt policy desk dry_run first second third payload op d j)
    unfolding prepare_pending lift dispatch_pending_approval after ◌>>=◌
    pending_Asked =
        let c = pending_changes rt op d in
        let row = transition_row second "pending_approval" c op in
        let waits =
          register_waits desk third row
            (record j {
              ops = update_op op.op_id (transition_row second "pending_approval" c) j.ops;
            })
            (unfold transition_row in stored_row second op j found proposed "pending_approval" c)
            (unfold transition_row in refl) (desk.write (artifact_path desk row) row) in
        subst Asked
          (sym (
            call-eq (transition second op.op_id "pending_approval" c) _ j
              (moves second op j found proposed "pending_approval" c Edge.ask)))
          (unfold transition_row in
            record {
              prepared = _;
              returned = refl;
              not_executed = refl;
              dispatched = _;
              reported = refl;
              stored = waits.1;
              waiting = waits.0;
            })

  module _ (request : Request) (j begun : Journal)
      (begins : begin rt first request j ≡ ok (op, begun))
      (found : find_op op.op_id begun.ops ≡ some op) (proposed : op.status ≡ "proposed") where
    prepare-eq :
        prepare_operation rt policy desk dry_run first second third payload request j
        ≡ prepare_proposed rt policy desk dry_run first second third payload op
            (evaluate rt policy payload)
            begun
    unfolding prepare_operation
    prepare-eq =
        let test : (op.status == "proposed") ≡ true =
          ap (λ (s : String). s == "proposed") proposed in
        call-eq _ _ j begins ∙ rw test refl

    -- For a proposed operation that `begin` returns and that stands in the journal, when the policy
    -- decides neither "deny" nor "require_approval", it is no dry run, and `json.loads` reads the
    -- text of the contract back, with its keys in the order that `sort_keys=True` gives them: the
    -- preparation returns an operation to execute, and it is executable.
    pub prepare_allows :
        ((evaluate rt policy payload).decision == "deny") ≡ false
        → ((evaluate rt policy payload).decision == "require_approval") ≡ false
        → dry_run ≡ false
        → rt.loads (contract_to_json rt (build_contract op (evaluate rt policy payload)))
          ≡ some
              (sort_keys (obj (contract_to_dict (build_contract op (evaluate rt policy payload)))))
        → Cleared rt (prepare_operation rt policy desk dry_run first second third payload request j)
    unfolding prepare_proposed
    prepare_allows no_deny no_review wet loads = subst (Cleared rt) (sym prepare-eq) (
        rw (no_deny, no_review)
          (allowed_Cleared (evaluate rt policy payload) begun found proposed wet loads))

    -- For a proposed operation that `begin` returns and that stands in the journal, when the policy
    -- decides "deny": the preparation returns a refusal that is not to be executed, and stores the
    -- operation as failed.
    pub prepare_denies :
        ((evaluate rt policy payload).decision == "deny") ≡ true
        → Refused (prepare_operation rt policy desk dry_run first second third payload request j)
    unfolding prepare_proposed
    prepare_denies denied =
        subst Refused (sym prepare-eq)
          (rw denied (denied_Refused (evaluate rt policy payload) begun found proposed))

    -- For a proposed operation that `begin` returns and that stands in the journal, when the policy
    -- decides "require_approval": the preparation returns an operation that is pending approval and
    -- not to be executed, and stores it, whether or not its reviewer packet could be written.
    pub prepare_asks :
        ((evaluate rt policy payload).decision == "deny") ≡ false
        → ((evaluate rt policy payload).decision == "require_approval") ≡ true
        → Asked (prepare_operation rt policy desk dry_run first second third payload request j)
    unfolding prepare_proposed
    prepare_asks no_deny review =
        subst Asked (sym prepare-eq)
          (rw (no_deny, review) (pending_Asked (evaluate rt policy payload) begun found proposed))
