-- ===== src/Devflow/Cancel.antt =====
-- What `cancel_run` of src/clawops/devflow_state.py leaves, and what undoes it.
use strongclaw.Prelude.{
  ℕ, String, ◌≡◌, refl, ap, true, false, Option, none, some, List, [], ◌∷◌, ◌++◌, ◌==◌, inl, inr,
  is_some, contains, Bool-cases, and_false,
}
use strongclaw.Prelude.Rows.{find, update_where, find-update_same}
use strongclaw.Runtime.{Runtime}
use strongclaw.Value.{Fields}
use strongclaw.Result.{Result, ok, err, run_terminal, not_resumable}
use strongclaw.Devflow.Rows.{Run, Stage, StageEvent, Devflow}
use strongclaw.Devflow.Tables.{is_run, is_stage, has_run, insert_event, read_row}
use strongclaw.Devflow.State.{
  terminal_statuses, Stamp, StagePaths, is_live, cancel_stage, stage_or_run, known_run, finish_row,
  run_finished,
}
use strongclaw.Devflow.Calls.{
  append_event, event_row, cancelled_by, cancel_row, cancel_run, resume_run, get_run, finish_stage,
  record_stage_completed,
}

-- No event has the identifier yet.
abbrev pub Fresh : Stamp → Devflow → Type 0
Fresh stamp d = find (λ (e : StageEvent). e.event_id == stamp.event_id) d.events ≡ none

-- After the UPDATE of the stages no stage of the run is live.
no_live :
    (now : ℕ) (id : String) (stages : List Stage)
    → find (is_live id) (update_where (is_live id) (cancel_stage now) stages) ≡ none
unfolding find update_where cancel_stage
no_live now id [] = refl
no_live now id (s ∷ stages) = elim (Bool-cases (is_live id s)) [
  | inl e ↦ rw (e, and_false (s.run_id == id)) (no_live now id stages)
  | inr e ↦ rw (e, e) (no_live now id stages)
]

append_event_ok :
    (rt : Runtime) (stamp : Stamp) (id name kind : String) (payload : Option Fields) (d : Devflow)
    → Fresh stamp d
    → is_some (find (is_run id) d.runs) ≡ true
    → append_event rt stamp id name kind payload d
      ≡ ok (record d { events = d.events ++ event_row rt stamp id name kind payload ∷ [] })
unfolding append_event insert_event has_run event_row
append_event_ok rt stamp id name kind payload d fresh known = rw (fresh, known) refl

-- A cancellation that returned, and what later calls on the run do.
pub record Cancelled (rt : Runtime) (id : String) (m : Result (Run × Devflow)) : Type 0 where
  pub run : Run
  pub after : Devflow
  pub returned : m ≡ ok (run, after)
  pub stored : find (is_run id) after.runs ≡ some run
  pub status : run.status ≡ "cancelled"
  pub idle : find (is_live id) after.stages ≡ none
  pub not_again :
      (now : ℕ) (stamp : Stamp) (by : String)
      → cancel_run rt now stamp id by after ≡ err (run_terminal id "cancelled")
  pub not_resumed :
      (now : ℕ) (stamp : Stamp)
      → resume_run rt now stamp id after ≡ err (not_resumable id "cancelled")

module _ (rt : Runtime) (id : String) (d : Devflow) (r : Run)
    (found : find (is_run id) d.runs ≡ some r) where
  cancelled_again :
      r.status ≡ "cancelled"
      → (now : ℕ) (stamp : Stamp) (by : String)
      → cancel_run rt now stamp id by d ≡ err (run_terminal id "cancelled")
  unfolding cancel_run known_run
  cancelled_again status now stamp by = rw (found, status) refl

  cancelled_resumed :
      r.status ≡ "cancelled"
      → (now : ℕ) (stamp : Stamp)
      → resume_run rt now stamp id d ≡ err (not_resumable id "cancelled")
  unfolding resume_run get_run known_run
  cancelled_resumed status now stamp = rw (found, status) refl

module _ (rt : Runtime) (id : String) (d : Devflow) (r : Run)
    (found : find (is_run id) d.runs ≡ some r) where
  -- For a run that is stored and not terminal, and an event identifier that is not used:
  -- `cancel_run` returns the run as cancelled and stores it, none of its stages is live, and the run
  -- can neither be cancelled again nor be resumed.
  pub cancel_run_lem :
      (now : ℕ) (stamp : Stamp) (by : String)
      → contains terminal_statuses r.status ≡ false
      → Fresh stamp d
      → Cancelled rt id (cancel_run rt now stamp id by d)
  unfolding cancel_run known_run
  cancel_run_lem now stamp by live fresh =
      let f = cancel_row rt now by in
      let d1 : Devflow = record d {
        runs = update_where (is_run id) f d.runs;
        stages = update_where (is_live id) (cancel_stage now) d.stages;
      } in
      let name = stage_or_run r.current_stage_name in
      let e = event_row rt stamp id name "run_cancelled" (some (cancelled_by rt by)) in
      let d2 : Devflow = record d1 { events = d.events ++ e ∷ [] } in
      let found1 = find-update_same (is_run id) f d.runs (unfold cancel_row in λ x. refl) found in
      let written =
        append_event_ok rt stamp id name "run_cancelled" (some (cancelled_by rt by)) d1 fresh
          (ap is_some found1) in
      record {
        run = f r;
        after = d2;
        returned = rw (found, live, written, found1) (unfold read_row in refl);
        stored = found1;
        status = unfold cancel_row in refl;
        idle = no_live now id d.stages;
        not_again = cancelled_again rt id d2 (f r) found1 (unfold cancel_row in refl);
        not_resumed = cancelled_resumed rt id d2 (f r) found1 (unfold cancel_row in refl);
      }

-- A completion that returned, with the stage and the run that it leaves in the tables.
pub record Revived (id name : String) (m : Result (Stage × Devflow)) : Type 0 where
  pub stage : Stage
  pub run : Run
  pub after : Devflow
  pub returned : m ≡ ok (stage, after)
  pub stage_stored : find (is_stage id name) after.stages ≡ some stage
  pub succeeded : stage.status ≡ "succeeded"
  pub stored : find (is_run id) after.runs ≡ some run
  pub runs_again : run.status ≡ "running"

-- When a stage of a stored run is completed, whatever status the run has, also when it has been
-- cancelled: with an event identifier that is not used, the stage is stored as succeeded and the run
-- as running.
pub completion_revives :
    (rt : Runtime) (id name : String) (d : Devflow) (r : Run) (s : Stage)
    → find (is_run id) d.runs ≡ some r
    → find (is_stage id name) d.stages ≡ some s
    → (now : ℕ) (stamp : Stamp) (paths : StagePaths) → Fresh stamp d
    → Revived id name (record_stage_completed rt now stamp id name paths d)
unfolding record_stage_completed finish_stage
completion_revives rt id name d r s found staged now stamp paths fresh =
    let f = run_finished now "succeeded" name in
    let g = finish_row now "succeeded" paths in
    let d1 : Devflow = record d {
      runs = update_where (is_run id) f d.runs;
      stages = update_where (is_stage id name) g d.stages;
    } in
    let e = event_row rt stamp id name "stage_succeeded" none in
    let found1 = find-update_same (is_run id) f d.runs (unfold run_finished in λ x. refl) found in
    let staged1 =
      find-update_same (is_stage id name) g d.stages (unfold finish_row in λ x. refl) staged in
    let written =
      append_event_ok rt stamp id name "stage_succeeded" none d1 fresh (ap is_some found1) in
    record {
      stage = g s;
      run = f r;
      after = record d1 { events = d.events ++ e ∷ [] };
      returned = rw (written, staged1) (unfold read_row in refl);
      stage_stored = staged1;
      succeeded = unfold finish_row in refl;
      stored = found1;
      runs_again = unfold run_finished in refl;
    }
