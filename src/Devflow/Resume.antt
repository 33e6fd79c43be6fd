-- ===== src/Devflow/Resume.antt =====
-- What `resume_run` of src/clawops/devflow_state.py returns.
use strongclaw.Prelude.{
  ℕ, String, ◌≡◌, refl, sym, subst, ap, ◌∙◌, true, Option, none, some, List, Option-cases, ◌==◌,
  inl, inr, contains, is_some, not, ◌||◌,
}
use strongclaw.Prelude.Rows.{find, update_where, select, find-update_same}
use strongclaw.Value.{Fields}
use strongclaw.Runtime.{Runtime}
use strongclaw.Result.{
  ok, >>=-eq-ok, require-eq-ok, ok-injective, Ensures, ok-Ensures, err-Ensures, if-Ensures,
  integrity_error,
}
use strongclaw.Devflow.Rows.{Run, Stage, StageEvent, Devflow}
use strongclaw.Devflow.Tables.{is_run, in_run, has_run, order_by, insert_event}
use strongclaw.Devflow.State.{Stamp, RunView, next_incomplete, known_run}
use strongclaw.Devflow.Calls.{append_event, get_run, resumable, resume_row, some_stage, resume_run}

-- SELECT * FROM devflow_stage WHERE run_id = ? ORDER BY stage_index ASC
abbrev stages_of : String → Devflow → List Stage
stages_of id d = order_by (λ (s : Stage). s.stage_index) (select (in_run id) d.stages)

get_run-inv :
    (rt : Runtime) (id : String) (d : Devflow) (v : RunView)
    → get_run rt id d ≡ ok v
    → (find (is_run id) d.runs ≡ some v.run) × (v.stages ≡ stages_of id d)
unfolding get_run known_run
get_run-inv rt id d v returned = elim (Option-cases (find (is_run id) d.runs)) [
  | inl e ↦ absurd (cc (rw e at returned))
  | inr (r, e) ↦
      (let same = ok-injective (rw e at returned) in
        (e ∙ ap (λ (w : RunView). some w.run) same, sym (ap (λ (w : RunView). w.stages) same)))
]

insert_event-keeps :
    (e : StageEvent) (d : Devflow)
    → Ensures (λ (f : Devflow). (f.runs ≡ d.runs) × (f.stages ≡ d.stages)) (insert_event e d)
unfolding insert_event
insert_event-keeps e d =
    if-Ensures
      (is_some (find (λ (f : StageEvent). f.event_id == e.event_id) d.events)
        || not (has_run e.run_id d))
      _ _ (λ bad. err-Ensures integrity_error) (λ good. ok-Ensures _ (refl, refl))

append_event-keeps :
    (rt : Runtime) (stamp : Stamp) (id name kind : String) (payload : Option Fields) (d : Devflow)
    → Ensures
        (λ (f : Devflow). (f.runs ≡ d.runs) × (f.stages ≡ d.stages))
        (append_event rt stamp id name kind payload d)
unfolding append_event
append_event-keeps rt stamp id name kind payload d = insert_event-keeps _ d

some-injective : {a b : Run} → some a ≡ some b → a ≡ b
some-injective h = cc

some_stage-inv :
    (rt : Runtime) (id : String) (o : Option Stage) (s : Stage)
    → some_stage rt id o ≡ ok s
    → o ≡ some s
unfolding some_stage
some_stage-inv rt id none s h = absurd (cc)
some_stage-inv rt id (some t) s h = ap some (ok-injective h)

-- A run that was resumed: the view before, the stage at which it goes on, and the view returned.
pub record Resumed (rt : Runtime) (id : String) (d : Devflow) (view : RunView) : Type 0 where
  pub before : RunView
  pub read : get_run rt id d ≡ ok before
  pub could : contains (resumable rt) before.run.status ≡ true
  pub stage : Stage
  pub first : next_incomplete before.stages ≡ some stage
  pub runs : view.run.status ≡ "running"
  pub current : view.run.current_stage_name ≡ some stage.stage_name
  pub same_stages : view.stages ≡ before.stages

Resumed-view :
    (rt : Runtime) (now : ℕ) (id : String) (d : Devflow) (view : RunView) (stage : Stage)
    (resumed : Devflow) (after : RunView)
    → get_run rt id d ≡ ok view
    → contains (resumable rt) view.run.status ≡ true
    → next_incomplete view.stages ≡ some stage
    → (resumed.runs ≡ update_where (is_run id) (resume_row rt now stage.stage_name) d.runs)
      × (resumed.stages ≡ d.stages)
    → get_run rt id resumed ≡ ok after
    → Resumed rt id d after
Resumed-view rt now id d view stage resumed after read could first (runs, stages) again =
    let f = resume_row rt now stage.stage_name in
    let (found, listed) = get_run-inv rt id d view read in
    let (found', listed') = get_run-inv rt id resumed after again in
    let moved : some after.run ≡ some (f view.run) =
      sym found'
      ∙ ap (find (is_run id)) runs
      ∙ find-update_same (is_run id) f d.runs (unfold resume_row in λ x. refl) found in
    let run : after.run ≡ f view.run = some-injective moved in
    record {
      before = view;
      read = read;
      could = could;
      stage = stage;
      first = first;
      runs = ap (λ (r : Run). r.status) run ∙ (unfold resume_row in refl);
      current = ap (λ (r : Run). r.current_stage_name) run ∙ (unfold resume_row in refl);
      same_stages =
          listed'
          ∙ ap (λ (l : List Stage). order_by (λ (s : Stage). s.stage_index) (select (in_run id) l))
              stages
          ∙ sym listed;
    }

-- If `resume_run` returns, the run was failed, planned or running, and has an incomplete stage; the
-- view that it returns has the stages unchanged, and the run is running at the first of them.
pub resume_run_lem :
    (rt : Runtime) (now : ℕ) (stamp : Stamp) (id : String) (d : Devflow) (r : RunView × Devflow)
    → resume_run rt now stamp id d ≡ ok r
    → Resumed rt id d r.0
unfolding resume_run
resume_run_lem rt now stamp id d r returned =
    let (view, read, rest) = >>=-eq-ok (get_run rt id d) _ returned in
    let (could, rest1) = require-eq-ok _ _ _ rest in
    let (stage, picked, rest2) =
      >>=-eq-ok (some_stage rt id (next_incomplete view.stages)) _ rest1 in
    let (resumed, appended, rest3) =
      >>=-eq-ok (append_event rt stamp id stage.stage_name _ _ _) _ rest2 in
    let (after, read1, last) = >>=-eq-ok (get_run rt id resumed) _ rest3 in
    subst (λ (v : RunView). Resumed rt id d v)
      (ap (λ (t : RunView × Devflow). t.0) (ok-injective last))
      (Resumed-view rt now id d view stage resumed after read could
        (some_stage-inv rt id _ stage picked)
        ((append_event-keeps rt stamp id stage.stage_name _ _ _).at resumed appended) read1)
