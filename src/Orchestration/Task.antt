-- ===== src/Orchestration/Task.antt =====
-- `resolve_orchestration_task` of src/clawops/orchestration.py, and the identities of a task.
pub mod Checked
pub mod Identities
use strongclaw.Prelude.{ℕ, String, Bool, false, Option, none, some, List, [], ◌∷◌, contains}
use strongclaw.Value.{Value, str, arr, nat, bool, null, nil, Fields}
use strongclaw.Value.Matching.{to_text}
use strongclaw.Runtime.{Runtime}
use strongclaw.Result.{Result, ok, wrong_value, require, ◌>>=◌, ◌>>◌}
use strongclaw.Typed.{
  get_value, get_default, truth, as_mapping, as_optional_mapping, as_string, as_string_list,
  string_or_none, positive_int, natural_int,
}
use strongclaw.Orchestration.Tokens.{validate_token}
use strongclaw.Orchestration.Identity.{build_session_identity, build_lock_identity}
use strongclaw.Orchestration.Paths.{Host, resolve_path}
use strongclaw.Orchestration.Descriptors.{
  ProjectDescriptor, WorkspaceDescriptor, DeliveryTargetDescriptor, resolve_project,
  resolve_workspace, resolve_delivery_target,
}
use strongclaw.Orchestration.Inputs.{
  role_names, ContextRequest, ExpectedArtifact, nonempty_text, nonblank_text, member_text,
  resolve_paths, parse_expected_artifacts, parse_context_request,
}

-- AUTH_MODES, TASK_PERMISSION_MODES, TASK_WORKSPACE_MODES
abbrev pub auth_modes : List String
auth_modes = "subscription" ∷ "api" ∷ "cloud-provider" ∷ "local" ∷ []

abbrev pub task_permission_modes : List String
task_permission_modes = "approve-all" ∷ "approve-reads" ∷ "deny-all" ∷ []

abbrev pub task_workspace_modes : List String
task_workspace_modes = "mutable_primary" ∷ "mutable_test" ∷ "verify_only" ∷ "read_only" ∷ []

pub record OrchestrationTask : Type 0 where
  pub project : ProjectDescriptor
  pub workspace : WorkspaceDescriptor
  pub lane : String
  pub role : String
  pub backend : String
  pub backend_profile : Option String
  pub permissions_mode : Option String
  pub workspace_mode : Option String
  pub prompt : String
  pub operation_kind : String
  pub allowed_capabilities : List String
  pub required_auth_mode : String
  pub approval_required : Bool
  pub timeout_seconds : ℕ
  pub retry_budget : ℕ
  pub artifact_contract_id : Option String
  pub context_request : Option ContextRequest
  pub expected_artifacts : List ExpectedArtifact
  pub delivery_target : Option DeliveryTargetDescriptor

-- `OrchestrationTask.session_identity`
unfoldable pub session_identity : OrchestrationTask → Result String
session_identity t = build_session_identity (record {
  backend = t.backend;
  project_id = t.project.project_id;
  workspace_id = t.workspace.workspace_id;
  lane = t.lane;
  role = t.role;
})

-- `OrchestrationTask.lock_identity`
unfoldable pub lock_identity : OrchestrationTask → Result String
lock_identity t = build_lock_identity (record {
  project_id = t.project.project_id;
  workspace_id = t.workspace.workspace_id;
  lane = t.lane;
  role = t.role;
  operation_kind = t.operation_kind;
})

-- a mode that is absent, or among those allowed
unfoldable pub checked_mode : List String → Option String → String → Result (Unit {0})
checked_mode modes none path = ok tt
checked_mode modes (some mode) path = require (contains modes mode) (wrong_value path)

module _ (rt : Runtime) (host : Host) (base_dir : String) where
  -- the project of a task mapping
  unfoldable pub task_project : Fields → Result ProjectDescriptor
  task_project task = do
    payload ← as_mapping (get_value "project" task) "task.project"
    root ← resolve_path host base_dir (get_value "root" payload) "task.project.root"
    values ←
        as_string_list (get_default "trusted_roots" (arr nil) payload) "task.project.trusted_roots"
    trusted_roots ← resolve_paths host base_dir values "task.project.trusted_roots"
    metadata ← as_optional_mapping (get_value "metadata" payload) "task.project.metadata"
    resolve_project rt host root (string_or_none (get_value "id" payload)) trusted_roots metadata

  -- its workspace
  unfoldable pub task_workspace : Fields → ProjectDescriptor → Result WorkspaceDescriptor
  task_workspace task project = do
    payload ← as_mapping (get_value "workspace" task) "task.workspace"
    path ← resolve_path host base_dir (get_value "path" payload) "task.workspace.path"
    metadata ← as_optional_mapping (get_value "metadata" payload) "task.workspace.metadata"
    resolve_workspace rt host project (to_text rt (get_value "kind" payload)) path
        (string_or_none (get_value "id" payload)) (string_or_none (get_value "branch" payload))
        metadata

  -- a delivery target that is there
  unfoldable pub delivery_target_from : Value → ProjectDescriptor → Result DeliveryTargetDescriptor
  delivery_target_from v project = do
    payload ← as_mapping v "task.delivery_target"
    locator ←
        as_string (get_default "locator" (get_value "path" payload) payload)
          "task.delivery_target.locator"
    metadata ← as_optional_mapping (get_value "metadata" payload) "task.delivery_target.metadata"
    resolve_delivery_target rt host project (to_text rt (get_value "kind" payload)) locator
        (string_or_none (get_value "id" payload)) metadata

  -- its delivery target
  unfoldable pub task_delivery_target :
      Value → ProjectDescriptor → Result (Option DeliveryTargetDescriptor)
  unfolding delivery_target_from
  task_delivery_target null project = ok none
  task_delivery_target v project = do target ← delivery_target_from v project; ok (some target)

  -- `resolve_orchestration_task`
  unfoldable pub resolve_orchestration_task : Value → Result OrchestrationTask
  unfolding task_project task_workspace task_delivery_target checked_mode
  resolve_orchestration_task value = do
    task ← as_mapping value "task"
    project ← task_project task
    workspace ← task_workspace task project
    lane ← as_string (get_default "lane" (str "default") task) "task.lane"
    role ← member_text role_names (get_value "role" task) "task.role"
    backend ← nonempty_text (get_value "backend" task) "task.backend"
    prompt ← nonblank_text (get_value "prompt" task) "task.prompt"
    operation_kind ←
        nonempty_text (get_default "operation_kind" (str "worker_dispatch") task)
          "task.operation_kind"
    auth_mode ←
        member_text auth_modes (get_default "required_auth_mode" (str "subscription") task)
          "task.required_auth_mode"
    timeout ← positive_int (get_default "timeout_seconds" (nat 1800) task) "task.timeout_seconds"
    retry_budget ← natural_int (get_default "retry_budget" (nat 0) task) "task.retry_budget"
    capabilities ←
        as_string_list (get_default "allowed_capabilities" (arr nil) task)
          "task.allowed_capabilities"
    target ← task_delivery_target (get_value "delivery_target" task) project
    let permissions_mode = string_or_none (get_value "permissions_mode" task)
    checked_mode task_permission_modes permissions_mode "task.permissions_mode"
    let workspace_mode = string_or_none (get_value "workspace_mode" task)
    checked_mode task_workspace_modes workspace_mode "task.workspace_mode"
    valid_lane ← validate_token "task.lane" lane
    valid_kind ← validate_token "task.operation_kind" operation_kind
    context ← parse_context_request host base_dir (get_value "context" task)
    artifacts ← parse_expected_artifacts host base_dir (get_value "expected_artifacts" task)
    ok (record {
      project = project;
      workspace = workspace;
      lane = valid_lane;
      role = role;
      backend = backend;
      backend_profile = string_or_none (get_value "backend_profile" task);
      permissions_mode = permissions_mode;
      workspace_mode = workspace_mode;
      prompt = prompt;
      operation_kind = valid_kind;
      allowed_capabilities = capabilities;
      required_auth_mode = auth_mode;
      approval_required = truth (get_default "approval_required" (bool false) task);
      timeout_seconds = timeout;
      retry_budget = retry_budget;
      artifact_contract_id = string_or_none (get_value "artifact_contract_id" task);
      context_request = context;
      expected_artifacts = artifacts;
      delivery_target = target;
    })
