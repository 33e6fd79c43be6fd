-- ===== src/Wrapper/Execute/Hazards.antt =====
-- What `execute_http_operation` of src/clawops/wrappers/base.py does with an operation that was read
-- before another process started it, and with an exception that it does not catch.
use strongclaw.Prelude.{ℕ, String, ◌≡◌, refl, ap, true, false, Option, some, inl, ◌==◌}
use strongclaw.Runtime.{Runtime}
use strongclaw.Result.{ok, err, request_raised}
use strongclaw.Journal.Rows.{Operation, Journal}
use strongclaw.Journal.Tables.{find_op}
use strongclaw.Journal.Tables.Laws.{find_op-update}
use strongclaw.Journal.Transition.{no_changes, transition_row}
use strongclaw.Policy.Decision.{Decision}
use strongclaw.Wrapper.Results.{
  WrapperResult, no_details, result_from_operation, replay_result_from_operation,
}
use strongclaw.Wrapper.Requests.{Reply, other}
use strongclaw.Wrapper.Execute.{Execution, record_reply, check_status, execute_http_operation}
use strongclaw.Wrapper.Execute.Gate.{Executable, started, execute-sends, sent_once}

running_row :
    (start : ℕ) (op stored : Operation) (j : Journal)
    → find_op op.op_id j.ops ≡ some stored
    → find_op op.op_id (started start op j).ops
      ≡ some (transition_row start "running" no_changes stored)
running_row start op stored j found =
    find_op-update op.op_id (transition_row start "running" no_changes)
      (unfold transition_row in λ o. refl) j.ops stored found

module _ (rt : Runtime) (op : Operation) (decision : Option Decision) where
  still_Executable :
      (start : ℕ) (j : Journal) → Executable rt op j → Executable rt op (started start op j)
  still_Executable start j x = record {
    approved = x.approved;
    contract = x.contract;
    loaded = x.loaded;
    matching = x.matching;
    stored = transition_row start "running" no_changes x.stored;
    found = running_row start op x.stored j x.found;
    may_run = unfold transition_row in inl refl;
  }

  -- While the request of one execution is under way, a second execution of the operation as it was
  -- read before the first one started it calls `request` again.
  pub stale_snapshot_sends :
      (first second finish : ℕ) (request : Journal → Reply × Journal) (j : Journal)
      → Executable rt op j
      → (execute_http_operation rt op decision second finish request (started first op j)).sent ≡ 1
  stale_snapshot_sends first second finish request j x =
      sent_once rt op decision second finish request (started first op j)
        (still_Executable first j x)

-- A request that raised an exception that is not caught: what it raised, the row, which is still
-- running, and what every later execution of that row returns.
pub record Abandoned (rt : Runtime) (id message : String) (e : Execution) : Type 0 where
  pub raised : e.returned ≡ err (request_raised message)
  pub row : Operation
  pub stored : find_op id e.journal.ops ≡ some row
  pub running : row.status ≡ "running"
  pub never_sent :
      (decision : Option Decision) (start finish : ℕ) (request : Journal → Reply × Journal)
      → (result : WrapperResult) × (execute_http_operation rt row decision start finish request
            e.journal
          ≡ record { returned = ok result; journal = e.journal; sent = 0 })
        × (result.ok ≡ true)
        × (result.executed ≡ false)

running_replay :
    (rt : Runtime) (row : Operation) (decision : Option Decision) (start finish : ℕ)
    (request : Journal → Reply × Journal) (j : Journal)
    → row.status ≡ "running"
    → execute_http_operation rt row decision start finish request j ≡ record {
      returned = ok (result_from_operation row decision true true false false no_details);
      journal = j;
      sent = 0;
    }
unfolding execute_http_operation check_status replay_result_from_operation
running_replay rt row decision start finish request j running =
    let test : (s : String) → (row.status == s) ≡ ("running" == s) =
      λ s. ap (λ (t : String). t == s) running in
    rw (test "pending_approval", test "running") refl

-- An executable operation whose request raises an exception of a class that is not caught, while
-- the journal stays as it was: the execution raises it and leaves the row running, and every later
-- execution of that row sends nothing and returns a result that is ok and not executed.
pub unhandled_stays_running :
    (rt : Runtime) (op : Operation) (decision : Option Decision) (start finish : ℕ)
    (request : Journal → Reply × Journal) (j : Journal) (message : String)
    → Executable rt op j
    → request (started start op j) ≡ (other message, started start op j)
    → Abandoned rt op.op_id message (execute_http_operation rt op decision start finish request j)
unfolding record_reply
unhandled_stays_running rt op decision start finish request j message x raised =
    rw (execute-sends rt op decision start finish request j x, raised)
      (record {
        raised = refl;
        row = transition_row start "running" no_changes x.stored;
        stored = running_row start op x.stored j x.found;
        running = unfold transition_row in refl;
        never_sent = λ d s f again. (
          result_from_operation (transition_row start "running" no_changes x.stored) d true true
              false false no_details,
          running_replay rt (transition_row start "running" no_changes x.stored) d s f again
              (started start op j) (unfold transition_row in refl),
          unfold result_from_operation in refl,
          unfold result_from_operation in refl,
        );
      })
