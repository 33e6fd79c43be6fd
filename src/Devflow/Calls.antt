-- ===== src/Devflow/Calls.antt =====
-- The calls of src/clawops/devflow_state.py. Each opens one connection, whose `with` block rolls back
-- when it raises.
use strongclaw.Prelude.{
  ℕ, ◌+◌, String, ◌<>◌, ◌&&◌, not, Option, none, some, List, [], ◌∷◌, ◌==◌, ltb, contains,
}
use strongclaw.Prelude.Rows.{find, update_where, select}
use strongclaw.Value.{str, nat, null, obj, Value, Fields, end, field}
use strongclaw.Runtime.{Runtime}
use strongclaw.Result.{
  Result, ok, err, run_terminal, not_resumable, nothing_to_resume, require, ◌>>=◌, ◌>>◌,
}
use strongclaw.Devflow.Rows.{Run, Stage, StageEvent, Devflow}
use strongclaw.Devflow.Tables.{
  is_run, is_stage, in_run, insert_run, upsert_stage, insert_event, read_row, order_by,
}
use strongclaw.Devflow.State.{
  terminal_statuses, Stamp, RunRequest, StageStart, StagePaths, next_retry, new_stage, restart,
  run_started, finish_row, run_finished, cancel_stage, is_live, RunView, next_incomplete,
  stage_or_run, known_run,
}

module _ (rt : Runtime) where
  -- None if payload is None else canonical_json(payload)
  unfoldable pub payload_text : Option Fields → Option String
  payload_text none = none
  payload_text (some fs) = some (rt.canonical_json (obj fs))

  unfoldable pub event_row : Stamp → String → String → String → Option Fields → StageEvent
  unfolding payload_text
  event_row stamp run_id name kind payload = record {
    event_id = stamp.event_id;
    run_id = run_id;
    stage_name = name;
    event_kind = kind;
    payload_json = payload_text payload;
    created_at_ms = stamp.event_at;
  }

  -- `_append_stage_event`
  unfoldable pub append_event :
      Stamp → String → String → String → Option Fields → Devflow → Result Devflow
  append_event stamp run_id name kind payload d =
      insert_event (event_row stamp run_id name kind payload) d

  unfoldable pub new_run : ℕ → RunRequest → Run
  unfolding payload_text
  new_run now q = record {
    run_id = q.run_id;
    created_at_ms = now;
    updated_at_ms = now;
    status = "planned";
    repo_root = q.repo_root;
    project_id = q.project_id;
    workspace_id = q.workspace_id;
    lane = q.lane;
    goal = q.goal;
    run_profile = q.run_profile;
    bootstrap_profile = q.bootstrap_profile;
    workflow_path = q.workflow_path;
    plan_sha256 = q.plan_sha256;
    current_stage_name = none;
    requested_by = q.requested_by;
    resume_token = none;
    summary_json = payload_text q.summary;
  }

  unfoldable pub begin_run : ℕ → RunRequest → Devflow → Result (Run × Devflow)
  unfolding insert_run
  begin_run now q d = do
    inserted ← insert_run (new_run now q) d
    read_row (find (is_run q.run_id) inserted.runs) inserted

  -- the event of a stage that is started again
  unfoldable pub retried_event : Stamp → StageStart → Option Stage → Devflow → Result Devflow
  retried_event stamp q none d = ok d
  retried_event stamp q (some s) d =
      append_event stamp q.run_id q.stage_name "stage_retried"
        (some (field "retry_count" (nat (s.retry_count + 1)) end)) d

  unfoldable pub record_stage_started :
      ℕ → Stamp → Stamp → StageStart → Devflow → Result (Stage × Devflow)
  unfolding next_retry
  record_stage_started now first second q d = do
    let existing = find (is_stage q.run_id q.stage_name) d.stages
    let retries = next_retry existing
    written ← upsert_stage (new_stage now q retries) (restart now q retries) d
    let updated = record written {
      runs = update_where (is_run q.run_id) (run_started now q.stage_name) written.runs;
    }
    started ←
        append_event first q.run_id q.stage_name "stage_started"
          (some (field "workspace_root" (str q.workspace_root) end)) updated
    retried ← retried_event second q existing started
    read_row (find (is_stage q.run_id q.stage_name) retried.stages) retried

  -- `_finish_stage`
  unfoldable pub finish_stage :
      ℕ
      → Stamp
      → String
      → String
      → String
      → StagePaths
      → Option Fields
      → Devflow
      → Result (Stage × Devflow)
  finish_stage now stamp run_id name status paths payload d = do
    let updated = record d {
      stages = update_where (is_stage run_id name) (finish_row now status paths) d.stages;
      runs = update_where (is_run run_id) (run_finished now status name) d.runs;
    }
    finished ← append_event stamp run_id name ("stage_" <> status) payload updated
    read_row (find (is_stage run_id name) finished.stages) finished

  unfoldable pub record_stage_completed :
      ℕ → Stamp → String → String → StagePaths → Devflow → Result (Stage × Devflow)
  unfolding finish_stage
  record_stage_completed now stamp run_id name paths d =
      finish_stage now stamp run_id name "succeeded" paths none d

  -- {"reason": reason} if reason is not None else None
  unfoldable pub reason_payload : Option String → Option Fields
  reason_payload none = none
  reason_payload (some reason) = some (field "reason" (str reason) end)

  -- The resume token is written by a second connection, at the time `later`.
  unfoldable pub record_stage_failed :
      ℕ
      → Stamp
      → ℕ
      → String
      → String
      → String
      → StagePaths
      → Option String
      → Devflow
      → Result (Stage × Devflow)
  unfolding reason_payload
  record_stage_failed now stamp later token run_id name paths reason d = do
    r ← finish_stage now stamp run_id name "failed" paths (reason_payload reason) d
    ok (
      r.0,
      record r.1 {
        runs =
            update_where (is_run run_id)
              (λ (run : Run). record run {
                resume_token = some ("resume_" <> token);
                updated_at_ms = later;
              })
              r.1.runs;
      },
    )

  unfoldable pub mark_run_succeeded : ℕ → String → Fields → Devflow → Result (Run × Devflow)
  mark_run_succeeded now run_id summary d =
      let updated = record d {
        runs =
            update_where (is_run run_id)
              (λ (r : Run). record r {
                status = "succeeded";
                updated_at_ms = now;
                current_stage_name = none;
                summary_json = some (rt.canonical_json (obj summary));
              })
              d.runs;
      } in
      read_row (find (is_run run_id) updated.runs) updated

  -- {"cancelled_by": requested_by}
  abbrev pub cancelled_by : String → Fields
  cancelled_by requested_by = field "cancelled_by" (str requested_by) end

  unfoldable pub cancel_row : ℕ → String → Run → Run
  cancel_row now requested_by r = record r {
    status = "cancelled";
    updated_at_ms = now;
    summary_json = some (rt.canonical_json (obj (cancelled_by requested_by)));
  }

  unfoldable pub cancel_run : ℕ → Stamp → String → String → Devflow → Result (Run × Devflow)
  unfolding known_run
  cancel_run now stamp run_id requested_by d = do
    run ← known_run run_id (find (is_run run_id) d.runs)
    require (not (contains terminal_statuses run.status)) (run_terminal run_id run.status)
    let updated = record d {
      runs = update_where (is_run run_id) (cancel_row now requested_by) d.runs;
      stages = update_where (is_live run_id) (cancel_stage now) d.stages;
    }
    cancelled ←
        append_event stamp run_id (stage_or_run run.current_stage_name) "run_cancelled"
          (some (cancelled_by requested_by)) updated
    read_row (find (is_run run_id) cancelled.runs) cancelled

  unfoldable pub get_run : String → Devflow → Result RunView
  unfolding known_run
  get_run run_id d = do
    run ← known_run run_id (find (is_run run_id) d.runs)
    ok (record {
      run = run;
      stages = order_by (λ (s : Stage). s.stage_index) (select (in_run run_id) d.stages);
      events =
          order_by (λ (e : StageEvent). e.created_at_ms)
            (select (λ (e : StageEvent). e.run_id == run_id) d.events);
    })

  -- {"resume_token": view.run.resume_token}
  unfoldable pub token_value : Option String → Value
  token_value none = null
  token_value (some token) = str token

  -- "failed", "planned" and "running" can be resumed
  abbrev pub resumable : List String
  resumable = "failed" ∷ "planned" ∷ "running" ∷ []

  unfoldable pub resume_row : ℕ → String → Run → Run
  resume_row now name r = record r {
    status = "running";
    updated_at_ms = now;
    current_stage_name = some name;
  }

  unfoldable pub some_stage : String → Option Stage → Result Stage
  some_stage run_id none = err (nothing_to_resume run_id)
  some_stage run_id (some s) = ok s

  unfoldable pub resume_run : ℕ → Stamp → String → Devflow → Result (RunView × Devflow)
  unfolding some_stage token_value get_run
  resume_run now stamp run_id d = do
    view ← get_run run_id d
    require (contains resumable view.run.status) (not_resumable run_id view.run.status)
    stage ← some_stage run_id (next_incomplete view.stages)
    resumed ←
        append_event stamp run_id stage.stage_name "run_resumed"
          (some (field "resume_token" (token_value view.run.resume_token) end))
          (record d {
            runs = update_where (is_run run_id) (resume_row now stage.stage_name) d.runs;
          })
    after ← get_run run_id resumed
    ok (after, resumed)

-- `list_stuck_runs`; the cutoff can be negative, so it stands on the other side
unfoldable pub list_stuck_runs : ℕ → ℕ → Devflow → List Run
list_stuck_runs now older_than d =
    order_by (λ (r : Run). r.updated_at_ms)
      (select
        (λ (r : Run).
          contains ("planned" ∷ "running" ∷ []) r.status && ltb (r.updated_at_ms + older_than) now)
        d.runs)
