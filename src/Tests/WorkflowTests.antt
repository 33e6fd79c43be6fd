-- ===== src/Tests/WorkflowTests.antt =====
-- The theorems on workflows (src/clawops/workflow_runner.py) at a concrete document.
use strongclaw.Prelude.{String, Bool, true, false, ◌≡◌, refl, List, [], ◌∷◌, All, length}
use strongclaw.Value.{str, obj, arr, nil, cons, Fields, end, field}
use strongclaw.Value.Access.{get}
use strongclaw.Value.Matching.{to_text}
use strongclaw.Policy.Access.{value_or}
use strongclaw.Result.{Result, ok}
use strongclaw.Typed.{get_value, get_default, as_mapping, as_string, as_mapping_list}
use strongclaw.Orchestration.Inputs.{nonempty_text}
use strongclaw.Acp.Worker.{StepResult}
use strongclaw.Workflow.{workflow_steps, validate_workflow}
use strongclaw.Workflow.Handled.{HasHandler, validate_workflow-HasHandler}
use strongclaw.Workflow.Run.{run_steps}
use strongclaw.Workflow.Run.Complete.{Complete, run_steps-Complete}
use strongclaw.Tests.Fixtures.{toy}

abbrev init_step : Fields
init_step =
    field "name" (str "init") (field "kind" (str "journal_init") (field "db" (str "j.sqlite") end))

abbrev shell_step : Fields
shell_step =
    field "name" (str "build") (field "kind" (str "shell") (field "command" (str "make") end))

abbrev document : Fields
document = field "steps" (arr (cons (obj init_step) (cons (obj shell_step) nil))) end

abbrev steps : List Fields
steps = init_step ∷ shell_step ∷ []

document_valid : validate_workflow (obj document) ≡ ok document
unfolding validate_workflow get_value get_default value_or get as_mapping as_mapping_list as_string
    nonempty_text
document_valid = refl

document-steps : workflow_steps document ≡ ok steps
unfolding workflow_steps get_default value_or get as_mapping as_mapping_list
document-steps = refl

validate_workflow-HasHandler_example : All HasHandler steps
validate_workflow-HasHandler_example =
    validate_workflow-HasHandler (obj document) document steps document_valid document-steps

-- Every step fails.
abbrev fails : String → Fields → Bool → Result StepResult × Bool
fails kind step s = (ok (record { name = kind; ok = false; message = "exit=1" }), s)

abbrev first_failure : List StepResult
first_failure = record { name = "journal_init"; ok = false; message = "exit=1" } ∷ []

stops_first : (run_steps toy fails true steps true).0 ≡ ok first_failure
unfolding run_steps get to_text
stops_first = refl

run_steps-Complete_example : Complete true (length steps) first_failure
run_steps-Complete_example = run_steps-Complete toy fails true steps true first_failure stops_first
