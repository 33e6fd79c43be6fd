-- ===== src/Wrapper/Execute/Settled.antt =====
-- What `execute_http_operation` of src/clawops/wrappers/base.py leaves in the journal, and that a
-- repeated call replays it.
use strongclaw.Prelude.Int.{ℤ}
use strongclaw.Prelude.{
  ℕ, ◌<◌, String, ◌≡◌, refl, ◌⊎◌, subst, Bool, true, false, Option, none, some, inr, if◌then◌else◌,
}
use strongclaw.Runtime.{Runtime}
use strongclaw.Result.{ok}
use strongclaw.Journal.Rows.{Operation, Journal}
use strongclaw.Journal.Status.Edges.{Edge}
use strongclaw.Journal.Tables.{find_op, update_op}
use strongclaw.Journal.Tables.Laws.{find_op-update}
use strongclaw.Journal.Transition.{Change, Changes, unset, to, pick, transition, transition_row}
use strongclaw.Journal.Transition.Exact.{transition_exact}
use strongclaw.Policy.Decision.{Decision}
use strongclaw.Wrapper.Results.{WrapperResult, result_from_operation, replay_result_from_operation}
use strongclaw.Wrapper.Requests.{
  HttpResponseOutcome, WrapperTransportError, Reply, outcome, raw_response, transport_error,
  request_exception, other, coerce_response, status_error, from_exception,
}
use strongclaw.Wrapper.Execute.{
  Execution, failure_changes, failure_details, success_changes, success_details, report,
  record_failure, record_outcome, record_reply, execute_http_operation,
}
use strongclaw.Wrapper.Execute.Replays.{replay_success, failure, replay_failure}
use strongclaw.Wrapper.Execute.Gate.{Executable, started, execute-sends}

-- Whether a reply is a success; `none` for an exception that is not caught.
unfoldable pub verdict : Reply → Option Bool
verdict (outcome o) = some o.response.ok
verdict (raw_response r) = some r.ok
verdict (transport_error e) = some false
verdict (request_exception class message) = some false
verdict (other message) = none

-- An execution that returned: the row that it stored, the result that it returned, and the replay
-- of that row, which is the same result.
pub record Settled (decision : Option Decision) (id : String) (succeeded : Bool) (e : Execution)
    : Type 0 where
  pub completed : Operation
  pub result : WrapperResult
  pub returned : e.returned ≡ ok result
  pub stored : find_op id e.journal.ops ≡ some completed
  pub final : completed.status ≡ (if succeeded then "succeeded" else "failed")
  pub reports : (result.ok ≡ succeeded) × (result.executed ≡ true)
  pub replayed : replay_result_from_operation completed decision false ≡ some result

some-injective : {a b : Bool} → some a ≡ some b → a ≡ b
some-injective h = cc

Settled-eq :
    {decision : Option Decision} {id : String} {a b : Bool} (e : Execution)
    → some a ≡ some b
    → Settled decision id a e
    → Settled decision id b e
Settled-eq {decision} {id} e known s =
    subst (λ (v : Bool). Settled decision id v e) (some-injective known) s

running_move : (s t : String) → s ≡ "running" → Edge "running" t → (s ≡ t) ⊎ Edge s t
running_move s t running edge = rw running (inr edge)

settle_if :
    {decision : Option Decision} {id : String} {x y : Execution} (b : Bool)
    → Settled decision id true x
    → Settled decision id false y
    → Settled decision id b (if b then x else y)
settle_if true s t = s
settle_if false s t = t

module _ (rt : Runtime) (op : Operation) (decision : Option Decision) where
  module _ (now : ℕ) (id : String) (j : Journal) (p : Operation) (found : find_op id j.ops ≡ some p)
      (running : p.status ≡ "running") where
    stored_row :
        (status : String) (c : Changes)
        → find_op id (update_op id (transition_row now status c) j.ops)
          ≡ some (transition_row now status c p)
    stored_row status c =
        find_op-update id (transition_row now status c) (unfold transition_row in λ o. refl) j.ops p
          found

    moves :
        (status : String) (c : Changes)
        → Edge "running" status
        → transition now id status c j
          ≡ ok (
            transition_row now status c p,
            record j { ops = update_op id (transition_row now status c) j.ops },
          )
    moves status c edge =
        (transition_exact now id status c j p found).0 (running_move p.status status running edge)

    settle_success :
        (o : HttpResponseOutcome)
        → Settled decision id true (
            report rt op decision true
              (success_details o)
              j
              (transition now id "succeeded" (success_changes o) j))
    unfolding report
    settle_success o =
        let q = transition_row now "succeeded" (success_changes o) p in
        rw (moves "succeeded" (success_changes o) Edge.succeed) (record {
          completed = q;
          result = result_from_operation q decision true true true false (success_details o);
          returned = refl;
          stored = stored_row "succeeded" (success_changes o);
          final = unfold transition_row in refl;
          reports = unfold result_from_operation in (refl, refl);
          replayed = replay_success now o decision p;
        })

    module _ (tried : 0 < p.attempt) where
      settle_failure :
          (e : WrapperTransportError) (code : Change (Option ℤ))
          → pick code p.result_status_code ≡ e.status_code
          → Settled decision id false (record_failure rt op decision now id (failure e code) e j)
      unfolding record_failure report
      settle_failure e code same_code =
          let q = transition_row now "failed" (failure e code) p in
          rw (moves "failed" (failure e code) Edge.fail_running) (record {
            completed = q;
            result = result_from_operation q decision false true true false (failure_details e);
            returned = refl;
            stored = stored_row "failed" (failure e code);
            final = unfold transition_row in refl;
            reports = unfold result_from_operation in (refl, refl);
            replayed = replay_failure now e code decision p tried same_code;
          })

      settle_outcome :
          (o : HttpResponseOutcome)
          → Settled decision id o.response.ok (record_outcome rt op decision now id o j)
      unfolding record_outcome
      settle_outcome o = settle_if o.response.ok (settle_success o) (
          settle_failure (status_error rt o) (to (status_error rt o).status_code)
            (unfold pick in refl))

      settle_reply :
          (reply : Reply) (b : Bool)
          → verdict reply ≡ some b
          → p.result_status_code ≡ none
          → Settled decision id b (record_reply rt op decision now id reply j)
      unfolding record_reply verdict failure_changes
      settle_reply (outcome o) b known blank = Settled-eq _ known (settle_outcome o)
      settle_reply (raw_response r) b known blank =
          Settled-eq _ known (unfold coerce_response in settle_outcome (coerce_response r))
      settle_reply (transport_error e) b known blank =
          Settled-eq _ known (settle_failure e (to e.status_code) (unfold pick in refl))
      settle_reply (request_exception class message) b known blank =
          let e = from_exception class message "UNKNOWN" op.normalized_target false 1 in
          Settled-eq _ known (settle_failure e unset (unfold pick from_exception in blank))
      settle_reply (other message) b known blank = cc

  -- An executable operation whose row, when the request ends, is running with at least one attempt
  -- and no status code: unless the request raises an exception of another class, the execution
  -- returns a result that says whether the request succeeded, stores the row as succeeded or
  -- failed, and a replay of that row is the same result.
  pub execute_settles :
      (start finish : ℕ) (request : Journal → Reply × Journal) (j : Journal)
      → Executable rt op j
      → (p : Operation) → find_op op.op_id (request (started start op j)).1.ops ≡ some p
      → p.status ≡ "running"
      → 0 < p.attempt
      → p.result_status_code ≡ none
      → (succeeded : Bool) → verdict (request (started start op j)).0 ≡ some succeeded
      → Settled decision op.op_id succeeded
          (execute_http_operation rt op decision start finish request j)
  execute_settles start finish request j x p found running tried blank succeeded known =
      rw (execute-sends rt op decision start finish request j x) (
        settle_reply finish op.op_id (request (started start op j)).1 p found running tried
          (request (started start op j)).0 succeeded known blank)
