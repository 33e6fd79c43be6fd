-- ===== src/Workflow/Run.antt =====
-- `WorkflowRunner.run` of src/clawops/workflow_runner.py. What the step of a kind does with a state,
-- its handler, is an argument.
pub mod Complete
use strongclaw.Prelude.{
  String, Bool, false, ◌&&◌, not, Option, none, some, List, [], ◌∷◌, contains, if◌then◌else◌,
}
use strongclaw.Value.{Value, bool, Fields}
use strongclaw.Value.Access.{get}
use strongclaw.Value.Matching.{to_text}
use strongclaw.Runtime.{Runtime}
use strongclaw.Result.{Result, ok, err, missing_key, unknown_kind}
use strongclaw.Typed.{get_default, as_bool}
use strongclaw.Acp.Worker.{StepResult}
use strongclaw.Workflow.{workflow_steps}

-- the keys of `handlers`
abbrev pub handler_kinds : List String
handler_kinds =
    "shell" ∷ "policy_check" ∷ "journal_init" ∷ "context_pack" ∷ "workspace_prepare"
    ∷ "delivery_prepare" ∷ "worker_dispatch" ∷ "worker_poll" ∷ "artifact_gate" ∷ "approval_gate"
    ∷ "git_snapshot" ∷ "git_mutation_gate" ∷ "stage_record" ∷ "artifact_manifest" ∷ []

-- str(step["kind"])
unfoldable pub step_kind : Runtime → Option Value → Result String
step_kind rt none = err (missing_key "kind")
step_kind rt (some v) = ok (to_text rt v)

module _ (rt : Runtime) {S : Type 0} (handle : String → Fields → S → Result StepResult × S) where
  -- the handler of a step
  unfoldable pub run_kind : Fields → Result String → S → Result StepResult × S
  run_kind step (err e) s = (err e, s)
  run_kind step (ok kind) s =
      if contains handler_kinds kind then handle kind step s else (err (unknown_kind kind), s)

  -- results.append(result), before the results of the rest
  unfoldable pub with_result :
      StepResult → Result (List StepResult) × S → Result (List StepResult) × S
  with_result r (err e, s) = (err e, s)
  with_result r (ok results, s) = (ok (r ∷ results), s)

  -- after a step: what it raised, the end, or the rest
  unfoldable pub after_step :
      Bool
      → (S → Result (List StepResult) × S)
      → Result StepResult × S
      → Result (List StepResult) × S
  unfolding with_result
  after_step stop_on_failure rest (err e, s) = (err e, s)
  after_step stop_on_failure rest (ok r, s) =
      if stop_on_failure && not r.ok then (ok (r ∷ []), s) else with_result r (rest s)

  -- the loop of `run`
  unfoldable pub run_steps : Bool → List Fields → S → Result (List StepResult) × S
  unfolding run_kind after_step step_kind
  run_steps stop_on_failure [] s = (ok [], s)
  run_steps stop_on_failure (step ∷ steps) s =
      after_step stop_on_failure (run_steps stop_on_failure steps)
        (run_kind step (step_kind rt (get "kind" step)) s)

  unfoldable pub run_listed : Bool → Result (List Fields) → S → Result (List StepResult) × S
  unfolding run_steps
  run_listed stop_on_failure (err e) s = (err e, s)
  run_listed stop_on_failure (ok steps) s = run_steps stop_on_failure steps s

  unfoldable pub run_flagged : Fields → Result Bool → S → Result (List StepResult) × S
  unfolding run_listed
  run_flagged workflow (err e) s = (err e, s)
  run_flagged workflow (ok stop_on_failure) s =
      run_listed stop_on_failure (workflow_steps workflow) s

  -- `WorkflowRunner.run`
  unfoldable pub run_workflow : Fields → S → Result (List StepResult) × S
  unfolding run_flagged
  run_workflow workflow s =
      run_flagged workflow
        (as_bool (get_default "stop_on_failure" (bool false) workflow) "workflow.stop_on_failure") s
