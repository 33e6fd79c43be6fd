-- ===== src/Wrapper/Execute/Gate.antt =====
-- When `execute_http_operation` of src/clawops/wrappers/base.py sends its request.
use strongclaw.Prelude.{
  ℕ, String, ◌≡◌, refl, ap, ◌∙◌, Bool, true, false, Option, none, some, ◌⊎◌, inl, inr, ◌==◌, eq_iff,
  Bool-cases, Option-cases,
}
use strongclaw.Runtime.{Runtime}
use strongclaw.Result.{Result, ok, err}
use strongclaw.Journal.Rows.{Operation, Journal}
use strongclaw.Journal.Status.Edges.{Edge}
use strongclaw.Journal.Tables.{find_op, update_op}
use strongclaw.Journal.Tables.Laws.{find_op-op_id}
use strongclaw.Journal.Transition.{no_changes, transition, transition_row}
use strongclaw.Journal.Transition.Exact.{transition_exact, transition_unknown}
use strongclaw.Policy.Decision.{Decision}
use strongclaw.Wrapper.Contract.{ExecutionContract, matches, contract_from_operation}
use strongclaw.Wrapper.Results.{Details, replay_result_from_operation}
use strongclaw.Wrapper.Requests.{
  HttpResponseOutcome, Reply, outcome, raw_response, transport_error, request_exception, other,
}
use strongclaw.Wrapper.Execute.{
  Execution, record_reply, record_outcome, record_failure, report, send, check_contract,
  check_status, execute_http_operation,
}

-- The operation is approved and carries a contract that matches it, and the journal has its row
-- with a status approved or running.
pub record Executable (rt : Runtime) (op : Operation) (j : Journal) : Type 0 where
  pub approved : op.status ≡ "approved"
  pub contract : ExecutionContract
  pub loaded : contract_from_operation rt op ≡ some contract
  pub matching : matches contract op ≡ true
  pub stored : Operation
  pub found : find_op op.op_id j.ops ≡ some stored
  pub may_run : (stored.status ≡ "running") ⊎ (stored.status ≡ "approved")

-- The journal when the request is sent.
abbrev pub started : ℕ → Operation → Journal → Journal
started start op j = record j {
  ops = update_op op.op_id (transition_row start "running" no_changes) j.ops;
}

edge_source : (s t : String) → Edge s t → t ≡ "running" → s ≡ "approved"
edge_source s t Edge.start h = refl
edge_source s t e h = cc

start_move : (s : String) → (s ≡ "running") ⊎ (s ≡ "approved") → (s ≡ "running") ⊎ Edge s "running"
start_move s (inl e) = inl e
start_move s (inr e) = rw e (inr Edge.start)

start_source :
    (s : String) → (s ≡ "running") ⊎ Edge s "running" → (s ≡ "running") ⊎ (s ≡ "approved")
start_source s (inl e) = inl e
start_source s (inr e) = inr (edge_source s "running" e refl)

approved_replay :
    (op : Operation) (decision : Option Decision)
    → op.status ≡ "approved"
    → replay_result_from_operation op decision false ≡ none
unfolding replay_result_from_operation
approved_replay op decision approved =
    let test : (s : String) → (op.status == s) ≡ ("approved" == s) =
      λ s. ap (λ (t : String). t == s) approved in
    rw
      (
        test "pending_approval",
        test "running",
        test "approved",
        test "succeeded",
        test "failed",
        test "cancelled",
      )
      refl

module _ (rt : Runtime) (op : Operation) (decision : Option Decision) where
  report-sent :
      (b : Bool) (d : Details) (j : Journal) (r : Result (Operation × Journal))
      → (report rt op decision b d j r).sent ≡ 1
  unfolding report
  report-sent b d j (err e) = refl
  report-sent b d j (ok r) = refl

  record_outcome-sent :
      (now : ℕ) (id : String) (o : HttpResponseOutcome) (j : Journal)
      → (record_outcome rt op decision now id o j).sent ≡ 1
  unfolding record_outcome record_failure
  record_outcome-sent now id o j = elim (Bool-cases o.response.ok) [
    | inl e ↦ rw e (report-sent true _ j _)
    | inr e ↦ rw e (report-sent false _ j _)
  ]

  record_reply-sent :
      (now : ℕ) (id : String) (reply : Reply) (j : Journal)
      → (record_reply rt op decision now id reply j).sent ≡ 1
  unfolding record_reply record_failure
  record_reply-sent now id (outcome o) j = record_outcome-sent now id o j
  record_reply-sent now id (raw_response r) j = record_outcome-sent now id _ j
  record_reply-sent now id (transport_error e) j = report-sent false _ j _
  record_reply-sent now id (request_exception class message) j = report-sent false _ j _
  record_reply-sent now id (other message) j = refl

  module _ (start finish : ℕ) (request : Journal → Reply × Journal) (j : Journal) where
    -- what the execution of an executable operation is
    pub execute-sends :
        Executable rt op j
        → execute_http_operation rt op decision start finish request j
          ≡ record_reply rt op decision finish op.op_id
              (request (started start op j)).0
              (request (started start op j)).1
    unfolding execute_http_operation check_status check_contract send transition_row
    execute-sends x =
        let replay = approved_replay op decision x.approved in
        let approved : (op.status == "approved") ≡ true =
          ap (λ (t : String). t == "approved") x.approved in
        let moved =
          (transition_exact start op.op_id "running" no_changes j x.stored x.found).0
            (start_move x.stored.status x.may_run) in
        rw (replay, approved, x.loaded, x.matching, moved)
          (ap
            (λ (id : String).
              record_reply rt op decision finish id (request (started start op j)).0
                (request (started start op j)).1)
            (find_op-op_id op.op_id j.ops x.stored x.found))

    pub sent_once :
        Executable rt op j → (execute_http_operation rt op decision start finish request j).sent ≡ 1
    sent_once x =
        ap (λ (e : Execution). e.sent) (execute-sends x) ∙ record_reply-sent finish op.op_id _ _

    blocked_at_transition :
        (c : ExecutionContract)
        → op.status ≡ "approved"
        → contract_from_operation rt op ≡ some c
        → matches c op ≡ true
        → (r : Result (Operation × Journal)) → transition start op.op_id "running" no_changes j ≡ r
        → Executable rt op j
          ⊎ (((send rt op decision start finish request j r).sent ≡ 0)
              × ((send rt op decision start finish request j r).journal ≡ j))
    unfolding send
    blocked_at_transition c approved loaded matching (err e) moved = inr (refl, refl)
    blocked_at_transition c approved loaded matching (ok r) moved =
        elim (Option-cases (find_op op.op_id j.ops)) [
          | inl missing ↦
              absurd (cc (moved, transition_unknown start op.op_id "running" no_changes j missing))
          | inr (stored, found) ↦ inl (record {
            approved = approved;
            contract = c;
            loaded = loaded;
            matching = matching;
            stored = stored;
            found = found;
            may_run =
                start_source stored.status
                  ((transition_exact start op.op_id "running" no_changes j stored found).1 r moved);
          })
        ]

    blocked :
        Executable rt op j
        ⊎ (((execute_http_operation rt op decision start finish request j).sent ≡ 0)
            × ((execute_http_operation rt op decision start finish request j).journal ≡ j))
    unfolding execute_http_operation check_status check_contract
    blocked = elim (Option-cases (replay_result_from_operation op decision false)) [
      | inr (r, replay) ↦ rw replay (inr (refl, refl))
      | inl replay ↦ elim (Bool-cases (op.status == "approved")) [
        | inr other_status ↦ rw (replay, other_status) (inr (refl, refl))
        | inl approved ↦ elim (Option-cases (contract_from_operation rt op)) [
          | inl missing ↦ rw (replay, approved, missing) (inr (refl, refl))
          | inr (c, loaded) ↦ elim (Bool-cases (matches c op)) [
            | inr mismatch ↦ rw (replay, approved, loaded, mismatch) (inr (refl, refl))
            | inl matching ↦
                rw (replay, approved, loaded, matching)
                  (blocked_at_transition c ((eq_iff op.status "approved").0 approved) loaded
                    matching (transition start op.op_id "running" no_changes j) refl)
          ]
        ]
      ]
    ]

    -- Either the operation is executable and its execution calls `request` exactly once, or it is
    -- not, and then its execution does not call `request` and leaves the journal as it was.
    pub sends_when_Executable :
        (Executable rt op j
          × ((execute_http_operation rt op decision start finish request j).sent ≡ 1))
        ⊎ ((¬ Executable rt op j)
            × ((execute_http_operation rt op decision start finish request j).sent ≡ 0)
            × ((execute_http_operation rt op decision start finish request j).journal ≡ j))
    sends_when_Executable = elim blocked [
      | inl x ↦ inl (x, sent_once x)
      | inr (none_sent, unchanged) ↦ inr ((λ x. cc (sent_once x, none_sent)), none_sent, unchanged)
    ]
