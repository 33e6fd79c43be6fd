-- ===== src/Acp/Worker.antt =====
-- `_worker_dispatch_step` of src/clawops/workflow_runner.py: a task becomes an operation of the
-- journal, which is approved, run as an ACP session and settled.
pub mod Gate
pub mod Settled
use strongclaw.Prelude.{ℕ, String, ◌<>◌, Bool, true, false, Option, none, some, if◌then◌else◌}
use strongclaw.Prelude.Text.{strip, is_nonempty}
use strongclaw.Value.{Value, str, obj}
use strongclaw.Runtime.{Runtime}
use strongclaw.Result.{Result, ok, err}
use strongclaw.Journal.Rows.{Operation, Journal}
use strongclaw.Journal.Begin.{Request, begin}
use strongclaw.Journal.Transition.{Changes, to, no_changes, transition}
use strongclaw.Journal.Review.{approve}
use strongclaw.Typed.{string_or_none}
use strongclaw.Wrapper.Session.{Session, call, lift, ◌>>=◌}
use strongclaw.Wrapper.Dispatch.{Desk, dispatch_pending_approval}
use strongclaw.Orchestration.Task.{OrchestrationTask, session_identity}
use strongclaw.Orchestration.Contract.{to_contract}
use strongclaw.Orchestration.Inputs.{ContextRequest}
use strongclaw.Acp.Spec.{SessionSpec}
use strongclaw.Acp.Session.{Worker, Ran, SessionSummary, run_session}

-- `StepResult`, without its details
pub record StepResult : Type 0 where
  pub name : String
  pub ok : Bool
  pub message : String

-- What the step goes on with: the result of the step, or the operation that is running.
pub data Next : Type 0 where
  halt : StepResult → Next
  go : Operation → Next

-- The fields of the step besides its task, and the state directory that it resolves to.
pub record DispatchStep : Type 0 where
  pub name : String
  pub approved_by : Value
  pub approval_note : Value
  pub state_dir : String
  pub dry_run : Bool

-- the person who approves: a text that is not blank
unfoldable pub approver : Value → Option String
approver (str s) = if is_nonempty (strip s) then some s else none
approver v = none

unfoldable pub step_result : DispatchStep → Bool → String → StepResult
step_result q good message = record { name = q.name; ok = good; message = message }

-- the arguments of `run_session`
unfoldable pub session_spec : OrchestrationTask → DispatchStep → SessionSpec
session_spec t q = record {
  backend = t.backend;
  prompt = t.prompt;
  project = t.project;
  workspace = t.workspace;
  lane = t.lane;
  role = t.role;
  operation_kind = t.operation_kind;
  state_dir = q.state_dir;
  timeout_seconds = t.timeout_seconds;
  ttl_seconds = 3600;
  backend_profile = t.backend_profile;
  permissions_mode = t.permissions_mode;
  output_format = "text";
  config_path = none;
}

unfoldable pub stopped : {A : Type 0} → Result A → Journal → Ran A
stopped r j = record { returned = r; journal = j; runs = 0 }

-- What the step uses besides the session: the context envelope that a request asks for, which may
-- raise, the reviewer's desk, and the time of each call.
pub record Office : Type 0 where
  pub context : ContextRequest → Result (Unit {0})
  pub desk : Desk
  pub clock : ℕ → ℕ

module _ (rt : Runtime) (w : Worker) (office : Office) (t : OrchestrationTask)
    (q : DispatchStep) where
  -- the arguments of `journal.begin`
  unfoldable pub task_request : String → Request
  task_request session = record {
    scope = session;
    kind = t.operation_kind;
    trust_zone = t.role;
    normalized_target = t.workspace.working_directory;
    inputs = to_contract rt t;
  }

  -- the keyword arguments of the transitions out of `proposed`
  unfoldable pub decision_changes : String → Changes
  decision_changes decision = record no_changes {
    policy_decision = to (some decision);
    execution_contract_version = to (some 1);
    execution_contract_json = to (some (rt.canonical_json (obj (to_contract rt t))));
  }

  unfoldable pub awaiting_changes : Changes
  unfolding decision_changes
  awaiting_changes = record (decision_changes "require_approval") { approval_required = to true }

  -- the operation runs
  unfoldable pub start_session : Operation → Session Next
  start_session op = do
    started ← call (transition (office.clock 4) op.op_id "running" no_changes)
    lift (ok (go op))

  -- approved by the step, if it names somebody
  unfoldable pub approve_step : Operation → Option String → Session Next
  unfolding start_session step_result
  approve_step op none =
      lift (ok (halt (step_result q false ("approval required before dispatch for " <> op.op_id))))
  approve_step op (some by) = do
    approved ←
        call (approve rt (office.clock 3) op.op_id by (string_or_none q.approval_note) none none)
    start_session op

  -- after the dispatch of the reviewer packet
  unfoldable pub after_dispatch : Operation → Option String → Session Next
  unfolding approve_step step_result
  after_dispatch op (some e) =
      lift
        (ok (halt (step_result q false ("approval dispatch failed for " <> op.op_id <> ": " <> e))))
  after_dispatch op none = approve_step op (approver q.approved_by)

  -- with and without a required approval
  unfoldable pub await_approval : Operation → Session Next
  unfolding after_dispatch
  await_approval op = do
    pending ← call (transition (office.clock 1) op.op_id "pending_approval" awaiting_changes)
    outcome ← dispatch_pending_approval office.desk (office.clock 2) pending
    after_dispatch op outcome.error

  unfoldable pub allow_step : Operation → Session Next
  unfolding start_session
  allow_step op = do
    approved ← call (transition (office.clock 1) op.op_id "approved" (decision_changes "allow"))
    start_session op

  unfoldable pub approve_operation : Operation → Session Next
  unfolding await_approval allow_step
  approve_operation op = if t.approval_required then await_approval op else allow_step op

  -- the operation of the task, up to the session
  unfoldable pub open_operation : String → Session Next
  unfolding task_request approve_operation
  open_operation session = do
    op ← call (begin rt (office.clock 0) (task_request session))
    approve_operation op

  -- the keyword arguments of the last transition
  unfoldable pub outcome_changes : SessionSummary → Changes
  outcome_changes summary = record no_changes {
    error = to (if summary.ok then none else some summary.message);
    result_ok = to (some summary.ok);
    result_status_code = to summary.returncode;
    result_body_excerpt = to (some summary.message);
  }

  unfoldable pub final_status : SessionSummary → String
  final_status summary = if summary.ok then "succeeded" else "failed"

  unfoldable pub recorded :
      ℕ → SessionSummary → Journal → Result (Operation × Journal) → Ran StepResult
  unfolding step_result
  recorded runs summary j (err e) = record { returned = err e; journal = j; runs = runs }
  recorded runs summary j (ok r) = record {
    returned = ok (step_result q summary.ok (summary.status <> " -> " <> summary.summary_path));
    journal = r.1;
    runs = runs;
  }

  -- after the session: an exception leaves the operation running
  unfoldable pub settle_session : Operation → ℕ → Journal → Result SessionSummary → Ran StepResult
  unfolding outcome_changes final_status recorded
  settle_session op runs j (err e) = record { returned = err e; journal = j; runs = runs }
  settle_session op runs j (ok summary) =
      recorded runs summary j
        (transition (office.clock 7) op.op_id (final_status summary) (outcome_changes summary) j)

  unfoldable pub proceed : Result Next × Journal → Ran StepResult
  unfolding stopped settle_session session_spec
  proceed (err e, j) = stopped (err e) j
  proceed (ok (halt r), j) = stopped (ok r) j
  proceed (ok (go op), j) =
      let ran = run_session rt w (office.clock 5) (office.clock 6) (session_spec t q) j in
      settle_session op ran.runs ran.journal ran.returned

  -- the step with its session identity
  unfoldable pub identified_step : Result String → Journal → Ran StepResult
  unfolding open_operation proceed
  identified_step (err e) j = stopped (err e) j
  identified_step (ok session) j = proceed (open_operation session j)

  -- the context envelope of a request
  unfoldable pub prepare_context : Option ContextRequest → Result (Unit {0})
  prepare_context none = ok tt
  prepare_context (some request) = office.context request

  unfoldable pub prepared_step : Result (Unit {0}) → Journal → Ran StepResult
  unfolding identified_step
  prepared_step (err e) j = stopped (err e) j
  prepared_step (ok done) j = identified_step (session_identity t) j

  -- the message of a dry run
  unfoldable pub dry_step : Result String → Result StepResult
  unfolding step_result
  dry_step (err e) = err e
  dry_step (ok session) = ok (step_result q true ("dry-run worker dispatch: " <> session))

  -- `_worker_dispatch_step` of a task that is resolved
  unfoldable pub worker_dispatch : Journal → Ran StepResult
  unfolding prepare_context prepared_step dry_step stopped
  worker_dispatch j =
      if q.dry_run
      then stopped (dry_step (session_identity t)) j
      else prepared_step (prepare_context t.context_request) j
