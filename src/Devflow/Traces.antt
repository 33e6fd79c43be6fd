-- ===== src/Devflow/Traces.antt =====
-- Any sequence of calls of src/clawops/devflow_state.py.
use strongclaw.Prelude.{ℕ, String, Option, List, [], ◌∷◌, refl}
use strongclaw.Value.{Fields}
use strongclaw.Runtime.{Runtime}
use strongclaw.Result.{Result, ok, err}
use strongclaw.Devflow.Rows.{Devflow, no_runs}
use strongclaw.Devflow.State.{Stamp, RunRequest, StageStart, StagePaths}
use strongclaw.Devflow.Calls.{
  begin_run, record_stage_started, record_stage_completed, record_stage_failed, mark_run_succeeded,
  cancel_run, resume_run,
}
use strongclaw.Devflow.Integrity.{IsSound, no_runs-IsSound}
use strongclaw.Devflow.Preserved.{
  Sound, begin_run-Sound, record_stage_started-Sound, record_stage_completed-Sound,
  record_stage_failed-Sound, mark_run_succeeded-Sound, cancel_run-Sound, resume_run-Sound,
}

-- The calls that write, each with its times and the identifiers that it draws.
pub data DevflowCall : Type 0 where
  begins : ℕ → RunRequest → DevflowCall
  starts : ℕ → Stamp → Stamp → StageStart → DevflowCall
  completes : ℕ → Stamp → String → String → StagePaths → DevflowCall
  fails : ℕ → Stamp → ℕ → String → String → String → StagePaths → Option String → DevflowCall
  succeeds : ℕ → String → Fields → DevflowCall
  cancels : ℕ → Stamp → String → String → DevflowCall
  resumes : ℕ → Stamp → String → DevflowCall

-- A call that raises leaves the tables as they were.
abbrev pub kept : {A : Type 0} → Result (A × Devflow) → Devflow → Devflow
kept (ok r) d = r.1
kept (err e) d = d

module _ (rt : Runtime) where
  unfoldable pub devflow_call : DevflowCall → Devflow → Devflow
  devflow_call (begins now q) d = kept (begin_run rt now q d) d
  devflow_call (starts now first second q) d = kept (record_stage_started rt now first second q d) d
  devflow_call (completes now stamp id name paths) d =
      kept (record_stage_completed rt now stamp id name paths d) d
  devflow_call (fails now stamp later token id name paths reason) d =
      kept (record_stage_failed rt now stamp later token id name paths reason d) d
  devflow_call (succeeds now id summary) d = kept (mark_run_succeeded rt now id summary d) d
  devflow_call (cancels now stamp id by) d = kept (cancel_run rt now stamp id by d) d
  devflow_call (resumes now stamp id) d = kept (resume_run rt now stamp id d) d

  unfoldable pub devflow_calls : List DevflowCall → Devflow → Devflow
  unfolding devflow_call
  devflow_calls [] d = d
  devflow_calls (c ∷ cs) d = devflow_calls cs (devflow_call c d)

kept-IsSound :
    {A : Type 0} (m : Result (A × Devflow)) (d : Devflow) → Sound m → IsSound d → IsSound (kept m d)
kept-IsSound (ok r) d sound s = sound.at r refl
kept-IsSound (err e) d sound s = s

module _ (rt : Runtime) where
  devflow_call-IsSound : (c : DevflowCall) (d : Devflow) → IsSound d → IsSound (devflow_call rt c d)
  unfolding devflow_call
  devflow_call-IsSound (begins now q) d s = kept-IsSound _ d (begin_run-Sound rt now q d s) s
  devflow_call-IsSound (starts now first second q) d s =
      kept-IsSound _ d (record_stage_started-Sound rt now first second q d s) s
  devflow_call-IsSound (completes now stamp id name paths) d s =
      kept-IsSound _ d (record_stage_completed-Sound rt now stamp id name paths d s) s
  devflow_call-IsSound (fails now stamp later token id name paths reason) d s =
      kept-IsSound _ d (record_stage_failed-Sound rt now stamp later token id name paths reason d s)
        s
  devflow_call-IsSound (succeeds now id summary) d s =
      kept-IsSound _ d (mark_run_succeeded-Sound rt now id summary d s) s
  devflow_call-IsSound (cancels now stamp id by) d s =
      kept-IsSound _ d (cancel_run-Sound rt now stamp id by d s) s
  devflow_call-IsSound (resumes now stamp id) d s =
      kept-IsSound _ d (resume_run-Sound rt now stamp id d s) s

  keep-IsSound : (cs : List DevflowCall) (d : Devflow) → IsSound d → IsSound (devflow_calls rt cs d)
  unfolding devflow_calls
  keep-IsSound [] d s = s
  keep-IsSound (c ∷ cs) d s = keep-IsSound cs (devflow_call rt c d) (devflow_call-IsSound c d s)

  -- After any sequence of calls on empty tables, each run is unique by its id, each stage by its run
  -- and name, and each stage belongs to a run.
  pub devflow_tables-IsSound : (cs : List DevflowCall) → IsSound (devflow_calls rt cs no_runs)
  devflow_tables-IsSound cs = keep-IsSound cs no_runs no_runs-IsSound
