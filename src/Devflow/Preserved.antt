-- ===== src/Devflow/Preserved.antt =====
-- Every call of src/clawops/devflow_state.py keeps the keys of its tables, and so does every sequence of
-- calls.
use strongclaw.Prelude.{ℕ, String, refl, Option, none, some}
use strongclaw.Prelude.Rows.{find}
use strongclaw.Value.{Fields}
use strongclaw.Runtime.{Runtime}
use strongclaw.Result.{
  Result, Ensures, ok-Ensures, err-Ensures, require-Ensures, Any-Ensures, bind-Ensures,
}
use strongclaw.Devflow.Rows.{Stage, Devflow}
use strongclaw.Devflow.Tables.{is_run, is_stage, read_row}
use strongclaw.Devflow.State.{
  Stamp, RunRequest, StageStart, StagePaths, next_retry, new_stage, restart, run_started,
  finish_row, run_finished, cancel_stage, is_live, next_incomplete, known_run,
}
use strongclaw.Devflow.Calls.{
  append_event, new_run, begin_run, retried_event, record_stage_started, finish_stage,
  record_stage_completed, record_stage_failed, reason_payload, mark_run_succeeded, cancel_row,
  cancel_run, get_run, resume_row, some_stage, resume_run,
}
use strongclaw.Devflow.Integrity.{
  IsSound, update_runs-IsSound, update_stages-IsSound, insert_run-Sound, insert_event-Sound,
  upsert_stage-Sound,
}

-- What a call returns comes with tables that are sound.
abbrev pub Sound {ℓ} : {A : Type ℓ} → Result (A × Devflow) → Type ℓ
Sound m = Ensures (λ r. IsSound r.1) m

-- A call that only reads.
read_row-Sound : {A : Type 0} (o : Option A) (d : Devflow) → IsSound d → Sound (read_row o d)
unfolding read_row
read_row-Sound none d s = err-Ensures _
read_row-Sound (some a) d s = ok-Ensures (a, d) s

module _ (rt : Runtime) where
  append_event-Sound :
      (stamp : Stamp) (id name kind : String) (payload : Option Fields) (d : Devflow)
      → IsSound d
      → Ensures IsSound (append_event rt stamp id name kind payload d)
  unfolding append_event
  append_event-Sound stamp id name kind payload d s = insert_event-Sound _ d s

  pub begin_run-Sound :
      (now : ℕ) (q : RunRequest) (d : Devflow) → IsSound d → Sound (begin_run rt now q d)
  unfolding begin_run
  begin_run-Sound now q d s =
      bind-Ensures _ _ (insert_run-Sound (new_run rt now q) d s) (λ e t. read_row-Sound _ e t)

  retried_event-Sound :
      (stamp : Stamp) (q : StageStart) (o : Option Stage) (d : Devflow)
      → IsSound d
      → Ensures IsSound (retried_event rt stamp q o d)
  unfolding retried_event
  retried_event-Sound stamp q none d s = ok-Ensures d s
  retried_event-Sound stamp q (some t) d s = append_event-Sound stamp _ _ _ _ d s

  pub record_stage_started-Sound :
      (now : ℕ) (first second : Stamp) (q : StageStart) (d : Devflow)
      → IsSound d
      → Sound (record_stage_started rt now first second q d)
  unfolding record_stage_started
  record_stage_started-Sound now first second q d s =
      let retries = next_retry (find (is_stage q.run_id q.stage_name) d.stages) in
      bind-Ensures _ _
        (upsert_stage-Sound (new_stage now q retries) (restart now q retries) d
          (unfold restart in λ t. refl) (unfold restart in λ t. refl) s)
        (λ written sound.
          bind-Ensures _ _
            (append_event-Sound first _ _ _ _ _ (
              update_runs-IsSound (is_run q.run_id) (run_started now q.stage_name)
                (unfold run_started in λ r. refl) written sound))
            (λ started sound'.
              bind-Ensures _ _ (retried_event-Sound second q _ started sound')
                (λ retried sound''. read_row-Sound _ retried sound'')))

  pub finish_stage-Sound :
      (now : ℕ) (stamp : Stamp) (id name status : String) (paths : StagePaths)
      (payload : Option Fields) (d : Devflow)
      → IsSound d
      → Sound (finish_stage rt now stamp id name status paths payload d)
  unfolding finish_stage
  finish_stage-Sound now stamp id name status paths payload d s =
      bind-Ensures _ _
        (append_event-Sound stamp id name _ payload _ (
          update_runs-IsSound (is_run id) (run_finished now status name)
            (unfold run_finished in λ r. refl) _
            (update_stages-IsSound (is_stage id name) (finish_row now status paths)
              (unfold finish_row in λ t. refl) (unfold finish_row in λ t. refl) d s)))
        (λ finished sound. read_row-Sound _ finished sound)

  pub record_stage_completed-Sound :
      (now : ℕ) (stamp : Stamp) (id name : String) (paths : StagePaths) (d : Devflow)
      → IsSound d
      → Sound (record_stage_completed rt now stamp id name paths d)
  unfolding record_stage_completed
  record_stage_completed-Sound now stamp id name paths d s =
      finish_stage-Sound now stamp id name "succeeded" paths none d s

  pub record_stage_failed-Sound :
      (now : ℕ) (stamp : Stamp) (later : ℕ) (token id name : String) (paths : StagePaths)
      (reason : Option String) (d : Devflow)
      → IsSound d
      → Sound (record_stage_failed rt now stamp later token id name paths reason d)
  unfolding record_stage_failed
  record_stage_failed-Sound now stamp later token id name paths reason d s =
      bind-Ensures _ _
        (finish_stage-Sound now stamp id name "failed" paths (reason_payload rt reason) d s)
        (λ r sound. ok-Ensures _ (update_runs-IsSound (is_run id) _ (λ run. refl) r.1 sound))

  pub mark_run_succeeded-Sound :
      (now : ℕ) (id : String) (summary : Fields) (d : Devflow)
      → IsSound d
      → Sound (mark_run_succeeded rt now id summary d)
  unfolding mark_run_succeeded
  mark_run_succeeded-Sound now id summary d s =
      read_row-Sound _ _ (update_runs-IsSound (is_run id) _ (λ run. refl) d s)

  pub cancel_run-Sound :
      (now : ℕ) (stamp : Stamp) (id by : String) (d : Devflow)
      → IsSound d
      → Sound (cancel_run rt now stamp id by d)
  unfolding cancel_run
  cancel_run-Sound now stamp id by d s =
      bind-Ensures _ _ (Any-Ensures (known_run id (find (is_run id) d.runs))) (λ run a.
        require-Ensures _ _ _ (
          bind-Ensures _ _
            (append_event-Sound stamp id _ _ _ _ (
              update_stages-IsSound (is_live id) (cancel_stage now)
                (unfold cancel_stage in λ t. refl) (unfold cancel_stage in λ t. refl) _
                (update_runs-IsSound (is_run id) (cancel_row rt now by)
                  (unfold cancel_row in λ r. refl) d s)))
            (λ cancelled sound. read_row-Sound _ cancelled sound)))

  pub resume_run-Sound :
      (now : ℕ) (stamp : Stamp) (id : String) (d : Devflow)
      → IsSound d
      → Sound (resume_run rt now stamp id d)
  unfolding resume_run
  resume_run-Sound now stamp id d s = bind-Ensures _ _ (Any-Ensures (get_run rt id d)) (λ view a.
      require-Ensures _ _ _ (
        bind-Ensures _ _ (Any-Ensures (some_stage rt id (next_incomplete view.stages))) (λ stage b.
          bind-Ensures _ _
            (append_event-Sound stamp id _ _ _ _ (
              update_runs-IsSound (is_run id) (resume_row rt now stage.stage_name)
                (unfold resume_row in λ r. refl) d s))
            (λ resumed sound.
              bind-Ensures _ _ (Any-Ensures (get_run rt id resumed))
                (λ after c. ok-Ensures (after, resumed) sound)))))
