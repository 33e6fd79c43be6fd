-- ===== src/Acp/Worker/Settled.antt =====
-- How `_worker_dispatch_step` of src/clawops/workflow_runner.py settles the operation of a session.
use strongclaw.Prelude.{◌<>◌, ℕ, Bool, true, false, if◌then◌else◌, ◌≡◌, refl, sym, inr, some, subst}
use strongclaw.Runtime.{Runtime}
use strongclaw.Result.{ok}
use strongclaw.Journal.Rows.{Operation, Journal}
use strongclaw.Journal.Status.Edges.{Edge}
use strongclaw.Journal.Tables.{find_op}
use strongclaw.Journal.Tables.Laws.{find_op-update}
use strongclaw.Journal.Transition.{transition_row}
use strongclaw.Journal.Transition.Exact.{transition_exact}
use strongclaw.Orchestration.Task.{OrchestrationTask}
use strongclaw.Acp.Session.{Worker, SessionSummary, Ran}
use strongclaw.Acp.Worker.{
  StepResult, DispatchStep, Office, step_result, settle_session, recorded, final_status,
  outcome_changes,
}

final-edge : (good : Bool) → Edge "running" (if good then "succeeded" else "failed")
final-edge true = Edge.succeed
final-edge false = Edge.fail_running

module _ (rt : Runtime) (w : Worker) (office : Office) (t : OrchestrationTask)
    (q : DispatchStep) where
  -- How a step ends whose session returned a summary.
  pub record Settled (op : Operation) (summary : SessionSummary) (ran : Ran StepResult)
      : Type 0 where
    pub row : Operation
    pub found : find_op op.op_id ran.journal.ops ≡ some row
    pub status : row.status ≡ (if summary.ok then "succeeded" else "failed")
    pub message : row.result_body_excerpt ≡ some summary.message
    pub code : row.result_status_code ≡ summary.returncode
    pub returned :
        ran.returned
        ≡ ok (step_result q summary.ok (summary.status <> " -> " <> summary.summary_path))

  -- Where the operation is still running when its session returns a summary: the step returns a
  -- result with the outcome of the session and a message with its status and the path of its
  -- summary, and the journal has the operation as succeeded if the session is ok and as failed if
  -- not, with the message and the return code of the session.
  pub settle_session-Settled :
      (op row : Operation) (runs : ℕ) (j : Journal) (summary : SessionSummary)
      → find_op op.op_id j.ops ≡ some row
      → row.status ≡ "running"
      → Settled op summary (settle_session rt w office t q op runs j (ok summary))
  unfolding settle_session recorded final_status
  settle_session-Settled op row runs j summary found running =
      let status = final_status rt w office t q summary in
      let c = outcome_changes rt w office t q summary in
      let now = office.clock 7 in
      let done =
        (transition_exact now op.op_id status c j row found).0
          (inr (subst (λ s. Edge s status) (sym running) (final-edge summary.ok))) in
      rw done (record {
        row = transition_row now status c row;
        found =
            find_op-update op.op_id (transition_row now status c)
              (unfold transition_row in λ o. refl) j.ops row found;
        status = unfold transition_row in refl;
        message = unfold transition_row outcome_changes in refl;
        code = unfold transition_row outcome_changes in refl;
        returned = refl;
      })
