-- ===== src/Tests/DevflowTests.antt =====
-- The theorems on devflow runs and stages (src/clawops/devflow_state.py) at concrete tables.
use strongclaw.Prelude.{ℕ, ◌≡◌, refl, none, [], ◌∷◌, String}
use strongclaw.Prelude.Rows.{find, update_where, select}
use strongclaw.Result.{ok}
use strongclaw.Devflow.Rows.{Devflow, no_runs}
use strongclaw.Devflow.Tables.{insert_event, has_run, order_by}
use strongclaw.Devflow.State.{
  Stamp, RunRequest, StageStart, RunView, run_started, new_stage, known_run, next_incomplete,
}
use strongclaw.Devflow.Calls.{
  record_stage_completed, cancel_run, resume_run, new_run, append_event, event_row, get_run,
  some_stage, resume_row,
}
use strongclaw.Devflow.Integrity.{IsSound}
use strongclaw.Devflow.Traces.{begins, starts, cancels, devflow_calls, devflow_tables-IsSound}
use strongclaw.Devflow.Cancel.{Cancelled, cancel_run_lem, Revived, completion_revives}
use strongclaw.Devflow.Resume.{Resumed, resume_run_lem}
use strongclaw.Tests.Fixtures.{toy}

abbrev work : RunRequest
work = record {
  run_id = "df_1";
  repo_root = "/repo";
  project_id = "p";
  workspace_id = "w";
  lane = "default";
  goal = "ship";
  run_profile = "default";
  bootstrap_profile = "python";
  workflow_path = "/repo/workflow.yaml";
  plan_sha256 = "0";
  requested_by = "operator";
  summary = none;
}

abbrev lead : StageStart
lead = record {
  run_id = "df_1";
  stage_name = "lead";
  stage_index = 0;
  role = "lead";
  workspace_root = "/repo";
  retry_budget = 0;
  op_id = none;
  session_identity = none;
}

abbrev at : String → ℕ → Stamp
at id now = record { event_id = id; event_at = now }

abbrev started : Devflow
started = record {
  runs = run_started 2 "lead" (new_run toy 1 work) ∷ [];
  stages = new_stage 2 lead 0 ∷ [];
  events = [];
}

devflow_tables-IsSound_example : IsSound (
    devflow_calls toy
      (begins 1 work
        ∷ starts 2 (at "e1" 2) (at "e2" 2) lead
        ∷ cancels 3 (at "e3" 3) "df_1" "me"
        ∷ [])
      no_runs)
devflow_tables-IsSound_example =
    devflow_tables-IsSound toy (
      begins 1 work
      ∷ starts 2 (at "e1" 2) (at "e2" 2) lead
      ∷ cancels 3 (at "e3" 3) "df_1" "me"
      ∷ [])

cancel_run_lem_example : Cancelled toy "df_1" (cancel_run toy 3 (at "e3" 3) "df_1" "me" started)
cancel_run_lem_example =
    cancel_run_lem toy "df_1" started (run_started 2 "lead" (new_run toy 1 work))
      (unfold find in unfold run_started in unfold new_run in refl) 3 (at "e3" 3) "me"
      (unfold run_started in refl) (unfold find in refl)

-- A run that has been cancelled while its stage was running.
abbrev stopped : Devflow
stopped = record started {
  runs = record (run_started 2 "lead" (new_run toy 1 work)) { status = "cancelled" } ∷ [];
}

completion_revives_example : Revived "df_1" "lead" (
    record_stage_completed toy 4
      (at "e4" 4)
      "df_1"
      "lead"
      (record { summary_path = none; audit_path = none; artifact_manifest_path = none })
      stopped)
completion_revives_example =
    completion_revives toy "df_1" "lead" stopped
      (record (run_started 2 "lead" (new_run toy 1 work)) { status = "cancelled" })
      (new_stage 2 lead 0) (unfold find in unfold run_started in unfold new_run in refl)
      (unfold find in unfold new_stage in refl) 4 (at "e4" 4)
      (record { summary_path = none; audit_path = none; artifact_manifest_path = none })
      (unfold find in refl)

resumes : (v : RunView × Devflow) × (resume_run toy 5 (at "e5" 5) "df_1" started ≡ ok v)
unfolding resume_run get_run known_run find run_started new_run new_stage some_stage next_incomplete
    append_event insert_event has_run event_row update_where select order_by resume_row
resumes = (_, refl)

resume_run_lem_example : Resumed toy "df_1" started resumes.0.0
resume_run_lem_example = resume_run_lem toy 5 (at "e5" 5) "df_1" started resumes.0 resumes.1
