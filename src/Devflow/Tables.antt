-- ===== src/Devflow/Tables.antt =====
-- The SQL statements of src/clawops/devflow_state.py, with the keys that the schema of
-- src/clawops/op_journal.py declares: a run and an event have a PRIMARY KEY, a stage has one and is
-- UNIQUE by run and name, and stages and events refer to a run.
use strongclaw.Prelude.{
  ℕ, String, Bool, ◌&&◌, ◌||◌, not, Option, none, some, List, [], ◌∷◌, ◌++◌, ◌==◌, leb,
  if◌then◌else◌, is_some,
}
use strongclaw.Prelude.Rows.{find, update_where}
use strongclaw.Result.{Result, ok, err, integrity_error, row_missing}
use strongclaw.Devflow.Rows.{Run, Stage, StageEvent, Devflow}

-- WHERE run_id = ?
abbrev pub is_run : String → Run → Bool
is_run id r = r.run_id == id

-- WHERE run_id = ? AND stage_name = ?
abbrev pub is_stage : String → String → Stage → Bool
is_stage id name s = s.run_id == id && s.stage_name == name

abbrev pub in_run : String → Stage → Bool
in_run id s = s.run_id == id

unfoldable pub has_run : String → Devflow → Bool
has_run id d = is_some (find (is_run id) d.runs)

-- INSERT INTO devflow_run
unfoldable pub insert_run : Run → Devflow → Result Devflow
insert_run r d =
    if is_some (find (is_run r.run_id) d.runs)
    then err integrity_error
    else ok (record d { runs = d.runs ++ r ∷ [] })

-- INSERT INTO devflow_stage ... ON CONFLICT(run_id, stage_name) DO UPDATE SET f
unfoldable pub upsert_stage : Stage → (Stage → Stage) → Devflow → Result Devflow
unfolding has_run
upsert_stage s f d =
    if is_some (find (is_stage s.run_id s.stage_name) d.stages)
    then ok (record d { stages = update_where (is_stage s.run_id s.stage_name) f d.stages })
    else if is_some (find (λ (t : Stage). t.stage_id == s.stage_id) d.stages)
        || not (has_run s.run_id d)
    then err integrity_error
    else ok (record d { stages = d.stages ++ s ∷ [] })

-- INSERT INTO devflow_stage_event
unfoldable pub insert_event : StageEvent → Devflow → Result Devflow
unfolding has_run
insert_event e d =
    if is_some (find (λ (f : StageEvent). f.event_id == e.event_id) d.events)
      || not (has_run e.run_id d)
    then err integrity_error
    else ok (record d { events = d.events ++ e ∷ [] })

-- the SELECT that closes a call; no row is a RuntimeError
unfoldable pub read_row {ℓ} : {A : Type ℓ} → Option A → Devflow → Result (A × Devflow)
read_row none d = err row_missing
read_row (some a) d = ok (a, d)

-- ORDER BY a column; rows with an equal column keep their order
unfoldable pub insert_by {ℓ} : {A : Type ℓ} → (A → ℕ) → A → List A → List A
insert_by column a [] = a ∷ []
insert_by column a (b ∷ rows) =
    if leb (column a) (column b) then a ∷ b ∷ rows else b ∷ insert_by column a rows

unfoldable pub order_by {ℓ} : {A : Type ℓ} → (A → ℕ) → List A → List A
unfolding insert_by
order_by column [] = []
order_by column (a ∷ rows) = insert_by column a (order_by column rows)
