-- ===== src/Devflow/State.antt =====
-- The arguments of the calls of src/clawops/devflow_state.py, and the row that each UPDATE writes.
use strongclaw.Prelude.{
  ℕ, ◌+◌, String, ◌<>◌, Bool, ◌&&◌, ◌||◌, not, Option, none, some, List, [], ◌∷◌, ◌==◌,
  if◌then◌else◌, contains,
}
use strongclaw.Prelude.Text.{is_nonempty}
use strongclaw.Value.{Fields}
use strongclaw.Result.{Result, ok, err, unknown_run}
use strongclaw.Devflow.Rows.{Run, Stage, StageEvent}
use strongclaw.Devflow.Tables.{in_run}

-- RUN_TERMINAL_STATUSES and STAGE_TERMINAL_STATUSES
abbrev pub terminal_statuses : List String
terminal_statuses = "succeeded" ∷ "failed" ∷ "cancelled" ∷ []

-- An event's identifier, and the time at which it is written.
pub record Stamp : Type 0 where
  pub event_id : String
  pub event_at : ℕ

-- The arguments of `begin_run`.
pub record RunRequest : Type 0 where
  pub run_id : String
  pub repo_root : String
  pub project_id : String
  pub workspace_id : String
  pub lane : String
  pub goal : String
  pub run_profile : String
  pub bootstrap_profile : String
  pub workflow_path : String
  pub plan_sha256 : String
  pub requested_by : String
  pub summary : Option Fields

-- The arguments of `record_stage_started`.
pub record StageStart : Type 0 where
  pub run_id : String
  pub stage_name : String
  pub stage_index : ℕ
  pub role : String
  pub workspace_root : String
  pub retry_budget : ℕ
  pub op_id : Option String
  pub session_identity : Option String

-- The paths that a finished stage leaves.
pub record StagePaths : Type 0 where
  pub summary_path : Option String
  pub audit_path : Option String
  pub artifact_manifest_path : Option String

-- COALESCE(?, column)
unfoldable pub coalesce {ℓ} : {A : Type ℓ} → Option A → Option A → Option A
coalesce none old = old
coalesce (some new) old = some new

-- 0 if existing is None else int(existing["retry_count"]) + 1
unfoldable pub next_retry : Option Stage → ℕ
next_retry none = 0
next_retry (some s) = s.retry_count + 1

unfoldable pub new_stage : ℕ → StageStart → ℕ → Stage
new_stage now q retries = record {
  stage_id = q.run_id <> ":" <> q.stage_name;
  run_id = q.run_id;
  stage_name = q.stage_name;
  stage_index = q.stage_index;
  role = q.role;
  workspace_root = q.workspace_root;
  op_id = q.op_id;
  session_identity = q.session_identity;
  status = "running";
  retry_budget = q.retry_budget;
  retry_count = retries;
  summary_path = none;
  audit_path = none;
  artifact_manifest_path = none;
  started_at_ms = some now;
  finished_at_ms = none;
}

-- the DO UPDATE: the columns that it does not name stay
unfoldable pub restart : ℕ → StageStart → ℕ → Stage → Stage
restart now q retries s = record s {
  workspace_root = q.workspace_root;
  op_id = q.op_id;
  session_identity = q.session_identity;
  status = "running";
  retry_budget = q.retry_budget;
  retry_count = retries;
  started_at_ms = some now;
  finished_at_ms = none;
}

unfoldable pub run_started : ℕ → String → Run → Run
run_started now name r = record r {
  status = "running";
  current_stage_name = some name;
  updated_at_ms = now;
  resume_token = none;
}

-- "running" if status == "succeeded" else status
unfoldable pub run_status : String → String
run_status status = if status == "succeeded" then "running" else status

unfoldable pub finish_row : ℕ → String → StagePaths → Stage → Stage
unfolding coalesce
finish_row now status paths s = record s {
  status = status;
  summary_path = coalesce paths.summary_path s.summary_path;
  audit_path = coalesce paths.audit_path s.audit_path;
  artifact_manifest_path = coalesce paths.artifact_manifest_path s.artifact_manifest_path;
  finished_at_ms = some now;
}

unfoldable pub run_finished : ℕ → String → String → Run → Run
unfolding run_status
run_finished now status name r = record r {
  updated_at_ms = now;
  status = run_status status;
  current_stage_name = some name;
}

unfoldable pub cancel_stage : ℕ → Stage → Stage
unfolding coalesce
cancel_stage now s = record s {
  status = "cancelled";
  finished_at_ms = coalesce s.finished_at_ms (some now);
}

-- WHERE run_id = ? AND status NOT IN (...)
abbrev pub is_live : String → Stage → Bool
is_live id s = in_run id s && not (contains terminal_statuses s.status)

-- `DevflowRunView`
pub record RunView : Type 0 where
  pub run : Run
  pub stages : List Stage
  pub events : List StageEvent

-- `DevflowRunView.next_incomplete_stage`
unfoldable pub next_incomplete : List Stage → Option Stage
next_incomplete [] = none
next_incomplete (s ∷ stages) =
    if not (contains terminal_statuses s.status) || s.status == "failed"
    then some s
    else next_incomplete stages

-- run.current_stage_name or "run"
unfoldable pub stage_or_run : Option String → String
stage_or_run none = "run"
stage_or_run (some name) = if is_nonempty name then name else "run"

unfoldable pub known_run : String → Option Run → Result Run
known_run id none = err (unknown_run id)
known_run id (some r) = ok r
