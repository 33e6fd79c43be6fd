-- ===== src/Devflow/Integrity.antt =====
-- The keys of the devflow tables hold after every call of src/clawops/devflow_state.py: a run is unique
-- by its id, a stage by its run and name, and each stage belongs to a run.
use strongclaw.Prelude.{
  ◌≤◌, String, ◌≡◌, refl, sym, ap, ◌∙◌, subst, Bool, true, false, ◌||◌, not, Option, none, some,
  List, [], ◌∷◌, ◌++◌, ◌==◌, eq_iff, inl, inr, arith, is_some, Bool-cases, Option-cases, All,
  All-append, All-map, and_true,
}
use strongclaw.Prelude.Rows.{
  find, count, update_where, change_if, option_map, find-update_where, count-update_where,
  find-append_some, count-append, count-absent, All-update_where,
}
use strongclaw.Result.{ok, err, integrity_error, Ensures, ok-Ensures, err-Ensures, if-Ensures}
use strongclaw.Devflow.Rows.{Run, Stage, StageEvent, Devflow, no_runs}
use strongclaw.Devflow.Tables.{is_run, is_stage, has_run, insert_run, upsert_stage, insert_event}

-- The run with an id is there.
abbrev pub Known : List Run → String → Type 0
Known runs id = is_some (find (is_run id) runs) ≡ true

pub record IsSound (d : Devflow) : Type 0 where
  pub runs_unique : (id : String) → count (is_run id) d.runs ≤ 1
  pub stages_unique : (id name : String) → count (is_stage id name) d.stages ≤ 1
  pub owned : All (λ (s : Stage). Known d.runs s.run_id) d.stages

pub no_runs-IsSound : IsSound no_runs
unfolding count
no_runs-IsSound = record {
  runs_unique = λ id. omega arith;
  stages_unique = λ id name. omega arith;
  owned = tt;
}

mapped_is_some :
    (f : Run → Run) (o : Option Run) → is_some o ≡ true → is_some (option_map f o) ≡ true
unfolding option_map
mapped_is_some f none h = cc
mapped_is_some f (some r) h = refl

-- An UPDATE of runs that leaves their ids alone.
module _ (test : Run → Bool) (f : Run → Run) (keeps : (r : Run) → (f r).run_id ≡ r.run_id) where
  keeps_is_run : (id : String) (r : Run) → is_run id (f r) ≡ is_run id r
  keeps_is_run id r = ap (λ (t : String). t == id) (keeps r)

  Known-update :
      (runs : List Run) (id : String) → Known runs id → Known (update_where test f runs) id
  Known-update runs id h =
      ap is_some (find-update_where test (is_run id) f (keeps_is_run id) runs)
      ∙ mapped_is_some (change_if test f) (find (is_run id) runs) h

  pub update_runs-IsSound :
      (d : Devflow) → IsSound d → IsSound (record d { runs = update_where test f d.runs })
  update_runs-IsSound d s = record {
    runs_unique = λ id.
        rw (count-update_where test (is_run id) f (keeps_is_run id) d.runs) (s.runs_unique id);
    stages_unique = s.stages_unique;
    owned =
        All-map (λ (t : Stage). Known d.runs t.run_id)
          (λ (t : Stage). Known (update_where test f d.runs) t.run_id) d.stages
          (λ t h. Known-update d.runs t.run_id h) s.owned;
  }

-- An UPDATE of stages that leaves their keys alone.
module _ (test : Stage → Bool) (f : Stage → Stage)
    (keeps_run : (s : Stage) → (f s).run_id ≡ s.run_id)
    (keeps_name : (s : Stage) → (f s).stage_name ≡ s.stage_name) where
  pub update_stages-IsSound :
      (d : Devflow) → IsSound d → IsSound (record d { stages = update_where test f d.stages })
  update_stages-IsSound d s = record {
    runs_unique = s.runs_unique;
    stages_unique = λ id name.
        rw
          (count-update_where test (is_stage id name) f (λ t. cc (keeps_run t, keeps_name t))
            d.stages)
          (s.stages_unique id name);
    owned =
        All-update_where (λ (t : Stage). Known d.runs t.run_id) test f d.stages
          (λ t h. subst (Known d.runs) (sym (keeps_run t)) h) s.owned;
  }

Known-append : (runs : List Run) (r : Run) (id : String) → Known runs id → Known (runs ++ r ∷ []) id
Known-append runs r id h = elim (Option-cases (find (is_run id) runs)) [
  | inl e ↦ absurd (cc (h, ap is_some e))
  | inr (x, e) ↦ ap is_some (find-append_some (is_run id) runs r e)
]

fresh_run :
    (runs : List Run) (r : Run) (id : String)
    → find (is_run r.run_id) runs ≡ none
    → count (is_run id) runs ≤ 1
    → count (is_run id) (runs ++ r ∷ []) ≤ 1
fresh_run runs r id free one = elim (Bool-cases (is_run id r)) [
  | inr e ↦ rw (count-append (is_run id) runs r, e) (omega arith)
  | inl e ↦
      (let absent : find (is_run id) runs ≡ none =
          subst (λ (t : String). find (is_run t) runs ≡ none) ((eq_iff r.run_id id).0 e) free in
        rw (count-append (is_run id) runs r, e, count-absent (is_run id) runs absent) (omega arith))
]

fresh_stage :
    (stages : List Stage) (s : Stage) (id name : String)
    → find (is_stage s.run_id s.stage_name) stages ≡ none
    → count (is_stage id name) stages ≤ 1
    → count (is_stage id name) (stages ++ s ∷ []) ≤ 1
fresh_stage stages s id name free one = elim (Bool-cases (is_stage id name s)) [
  | inr e ↦ rw (count-append (is_stage id name) stages s, e) (omega arith)
  | inl e ↦
      (let (same_run, same_name) = and_true (s.run_id == id) (s.stage_name == name) e in
        let named : find (is_stage s.run_id name) stages ≡ none =
          subst (λ (t : String). find (is_stage s.run_id t) stages ≡ none)
            ((eq_iff s.stage_name name).0 same_name) free in
        let absent : find (is_stage id name) stages ≡ none =
          subst (λ (t : String). find (is_stage t name) stages ≡ none)
            ((eq_iff s.run_id id).0 same_run) named in
        rw
          (
            count-append (is_stage id name) stages s,
            e,
            count-absent (is_stage id name) stages absent,
          )
          (omega arith))
]

pub insert_run-Sound : (r : Run) (d : Devflow) → IsSound d → Ensures IsSound (insert_run r d)
unfolding insert_run
insert_run-Sound r d s = elim (Option-cases (find (is_run r.run_id) d.runs)) [
  | inr (x, e) ↦ rw e (err-Ensures integrity_error)
  | inl e ↦ rw e (
      ok-Ensures (record d { runs = d.runs ++ r ∷ [] })
        (record {
          runs_unique = λ id. fresh_run d.runs r id e (s.runs_unique id);
          stages_unique = s.stages_unique;
          owned =
              All-map (λ (t : Stage). Known d.runs t.run_id)
                (λ (t : Stage). Known (d.runs ++ r ∷ []) t.run_id) d.stages
                (λ t h. Known-append d.runs r t.run_id h) s.owned;
        }))
]

pub insert_event-Sound :
    (e : StageEvent) (d : Devflow) → IsSound d → Ensures IsSound (insert_event e d)
unfolding insert_event
insert_event-Sound e d s =
    if-Ensures
      (is_some (find (λ (f : StageEvent). f.event_id == e.event_id) d.events)
        || not (has_run e.run_id d))
      (err integrity_error) (ok (record d { events = d.events ++ e ∷ [] }))
      (λ bad. err-Ensures integrity_error)
      (λ good.
        ok-Ensures (record d { events = d.events ++ e ∷ [] })
          (record {
            runs_unique = s.runs_unique;
            stages_unique = s.stages_unique;
            owned = s.owned;
          }))

or_not-false : (a b : Bool) → (a || not b) ≡ false → b ≡ true
or_not-false a true h = refl
or_not-false true false h = absurd (cc)
or_not-false false false h = absurd (cc)

append_stage-Sound :
    (t : Stage) (d : Devflow)
    → find (is_stage t.run_id t.stage_name) d.stages ≡ none
    → has_run t.run_id d ≡ true
    → IsSound d
    → IsSound (record d { stages = d.stages ++ t ∷ [] })
unfolding has_run
append_stage-Sound t d free known s = record {
  runs_unique = s.runs_unique;
  stages_unique = λ id name. fresh_stage d.stages t id name free (s.stages_unique id name);
  owned = All-append (λ (u : Stage). Known d.runs u.run_id) d.stages t s.owned known;
}

pub upsert_stage-Sound :
    (t : Stage) (f : Stage → Stage) (d : Devflow)
    → ((s : Stage) → (f s).run_id ≡ s.run_id)
    → ((s : Stage) → (f s).stage_name ≡ s.stage_name)
    → IsSound d
    → Ensures IsSound (upsert_stage t f d)
unfolding upsert_stage
upsert_stage-Sound t f d keeps_run keeps_name s =
    elim (Option-cases (find (is_stage t.run_id t.stage_name) d.stages)) [
      | inr (x, e) ↦ rw e (
          ok-Ensures _
            (update_stages-IsSound (is_stage t.run_id t.stage_name) f keeps_run keeps_name d s))
      | inl e ↦ rw e (
          if-Ensures
            (is_some (find (λ (u : Stage). u.stage_id == t.stage_id) d.stages)
              || not (has_run t.run_id d))
            (err integrity_error) (ok (record d { stages = d.stages ++ t ∷ [] }))
            (λ bad. err-Ensures integrity_error)
            (λ good.
              ok-Ensures (record d { stages = d.stages ++ t ∷ [] })
                (append_stage-Sound t d e (or_not-false _ (has_run t.run_id d) good) s)))
    ]
