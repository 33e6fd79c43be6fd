-- ===== src/Workflow.antt =====
-- Workflows of src/clawops/workflow_runner.py: the validation of a document; Run is the loop
-- over its steps.
pub mod Run
pub mod Handled
use strongclaw.Prelude.{
  ℕ, ◌+◌, String, ◌<>◌, Bool, true, false, ◌&&◌, ◌||◌, not, List, [], ◌∷◌, ◌==◌, ltb, contains,
  if◌then◌else◌,
}
use strongclaw.Value.{Value, str, arr, nat, neg, bool, null, nil, Fields}
use strongclaw.Result.{Result, ok, err, wrong_type, wrong_value, require, ◌>>=◌, ◌>>◌}
use strongclaw.Typed.{
  get_value, get_default, as_mapping, as_string, as_string_list, as_mapping_list, item_path,
}
use strongclaw.Orchestration.Inputs.{
  nonempty_text, validate_context_provider, validate_context_scale,
}

-- ALLOWED_WORKFLOW_KINDS
abbrev pub workflow_kinds : List String
workflow_kinds =
    "shell" ∷ "policy_check" ∷ "journal_init" ∷ "context_pack" ∷ "worker_dispatch" ∷ "worker_poll"
    ∷ "artifact_gate" ∷ "approval_gate" ∷ "workspace_prepare" ∷ "delivery_prepare" ∷ "git_snapshot"
    ∷ "git_mutation_gate" ∷ "stage_record" ∷ "artifact_manifest" ∷ []

-- `_validate_optional_positive_int`
unfoldable pub optional_positive_int : String → Value → Result (Unit {0})
optional_positive_int name null = ok tt
optional_positive_int name (nat n) = require (ltb 0 n) (wrong_value name)
optional_positive_int name (neg n) = err (wrong_value name)
optional_positive_int name v = err (wrong_type name)

unfoldable pub is_text : Value → Bool
is_text (str s) = true
is_text v = false

unfoldable pub is_null : Value → Bool
is_null null = true
is_null v = false

unfoldable pub is_bool : Value → Bool
is_bool (bool b) = true
is_bool v = false

-- isinstance(value, int) and not isinstance(value, bool)
unfoldable pub is_int : Value → Bool
is_int (nat n) = true
is_int (neg n) = true
is_int v = false

module _ (step : Fields) (prefix : String) where
  unfoldable pub string_field : String → Result (Unit {0})
  unfolding is_text
  string_field name = require (is_text (get_value name step)) (wrong_type (prefix <> "." <> name))

  unfoldable pub string_fields : List String → Result (Unit {0})
  unfolding string_field
  string_fields [] = ok tt
  string_fields (name ∷ names) = do string_field name; string_fields names

  unfoldable pub optional_text : String → Result (Unit {0})
  unfolding is_text is_null
  optional_text name =
      let v = get_value name step in
      require (is_null v || is_text v) (wrong_type (prefix <> "." <> name))

  unfoldable pub optional_bool : String → Result (Unit {0})
  unfolding is_bool is_null
  optional_bool name =
      let v = get_value name step in
      require (is_null v || is_bool v) (wrong_type (prefix <> "." <> name))

  unfoldable pub mapping_field : String → Result (Unit {0})
  mapping_field name = do fs ← as_mapping (get_value name step) (prefix <> "." <> name); ok tt

  -- one of two fields is there
  unfoldable pub either_field : String → String → Result (Unit {0})
  unfolding is_null
  either_field a b =
      require (not (is_null (get_value a step) && is_null (get_value b step))) (wrong_type prefix)

  -- the command of a shell step
  unfoldable pub check_command : Value → Result (Unit {0})
  check_command (str s) = ok tt
  check_command (arr items) = do texts ← as_string_list (arr items) (prefix <> ".command"); ok tt
  check_command v = err (wrong_type (prefix <> ".command"))

  unfoldable pub check_shell : Result (Unit {0})
  unfolding check_command optional_bool optional_positive_int
  check_shell = do
    check_command (get_value "command" step)
    optional_bool "shell"
    optional_positive_int (prefix <> ".timeout") (get_value "timeout" step)

  unfoldable pub check_context_pack : Result (Unit {0})
  unfolding string_fields optional_text optional_bool optional_positive_int
  check_context_pack = do
    string_fields ("config" ∷ "repo" ∷ "query" ∷ [])
    provider ← validate_context_provider (get_value "provider" step) (prefix <> ".provider")
    scale ← validate_context_scale (get_value "scale" step) (prefix <> ".scale")
    optional_positive_int (prefix <> ".limit") (get_value "limit" step)
    optional_text "output"
    optional_bool "envelope"

  unfoldable pub check_stage_record : Result (Unit {0})
  unfolding string_fields is_int
  check_stage_record = do
    string_fields ("db" ∷ "run_id" ∷ "stage_name" ∷ "role" ∷ "workspace_root" ∷ "status" ∷ [])
    require (is_int (get_value "stage_index" step)) (wrong_type (prefix <> ".stage_index"))

  unfoldable pub check_manifest : Result (Unit {0})
  unfolding string_fields
  check_manifest = do
    string_fields ("run_root" ∷ "manifest" ∷ "run_id" ∷ "stage_name" ∷ "role" ∷ [])
    artifacts ← as_mapping_list (get_default "artifacts" (arr nil) step) (prefix <> ".artifacts")
    ok tt

  -- the checks of one kind, which is an allowed one
  unfoldable pub check_kind : String → Result (Unit {0})
  unfolding check_shell check_context_pack check_stage_record check_manifest string_field
      mapping_field either_field
  check_kind kind =
      if kind == "shell"
      then check_shell
      else if kind == "policy_check"
      then (do string_field "policy"; mapping_field "payload")
      else if kind == "journal_init"
      then string_field "db"
      else if kind == "context_pack"
      then check_context_pack
      else if kind == "worker_dispatch"
      then mapping_field "task"
      else if kind == "worker_poll"
      then either_field "dispatch_step" "summary"
      else if kind == "artifact_gate"
      then either_field "from_step" "artifacts"
      else if kind == "approval_gate"
      then (do string_field "db"; either_field "op_id" "from_step")
      else if kind == "workspace_prepare"
      then (do mapping_field "project"; mapping_field "workspace")
      else if kind == "delivery_prepare"
      then (do mapping_field "project"; mapping_field "delivery_target")
      else if kind == "git_snapshot"
      then (do string_field "workspace"; optional_text "output")
      else if kind == "git_mutation_gate"
      then (do
        string_field "workspace"
        either_field "snapshot" "from_step"
        optional_bool "allow_non_git_degrade")
      else if kind == "stage_record"
      then check_stage_record
      else check_manifest

  -- the body of the loop of `_validate_workflow`
  unfoldable pub validate_step : Result (Unit {0})
  unfolding check_kind
  validate_step = do
    name ← nonempty_text (get_value "name" step) (prefix <> ".name")
    kind ← as_string (get_value "kind" step) (prefix <> ".kind")
    require (contains workflow_kinds kind) (wrong_value (prefix <> ".kind"))
    check_kind kind

unfoldable pub validate_steps : ℕ → List Fields → Result (Unit {0})
unfolding validate_step
validate_steps index [] = ok tt
validate_steps index (step ∷ steps) = do
  validate_step step (item_path "workflow.steps" index)
  validate_steps (index + 1) steps

-- `workflow.get("steps", [])` as mappings
unfoldable pub workflow_steps : Fields → Result (List Fields)
workflow_steps workflow = as_mapping_list (get_default "steps" (arr nil) workflow) "workflow.steps"

-- `_validate_workflow`
unfoldable pub validate_workflow : Value → Result Fields
unfolding validate_steps workflow_steps is_text is_null
validate_workflow v = do
  workflow ← as_mapping v "workflow"
  let base_dir = get_value "base_dir" workflow
  require (is_null base_dir || is_text base_dir) (wrong_type "workflow.base_dir")
  steps ← workflow_steps workflow
  validate_steps 1 steps
  ok workflow
