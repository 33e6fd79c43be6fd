-- ===== src/Orchestration/Task/Checked.antt =====
-- What holds of a task that `resolve_orchestration_task` returns.
use strongclaw.Prelude.{◌<◌, String, true, Option, none, some, List, ◌≡◌, contains, All}
use strongclaw.Prelude.Text.{strip, is_nonempty}
use strongclaw.Value.{Value, str, arr, nat, null, nil, Fields}
use strongclaw.Value.Matching.{to_text}
use strongclaw.Runtime.{Runtime}
use strongclaw.Result.{
  ok, wrong_value, Ensures, ok-Ensures, require_test-Ensures, bind-Ensures, Any-Ensures,
}
use strongclaw.Typed.{
  get_value, get_default, as_mapping, as_optional_mapping, as_string, as_string_list,
  string_or_none, natural_int,
}
use strongclaw.Orchestration.Tokens.Valid.{IsToken}
use strongclaw.Orchestration.Paths.{Host, resolve_path}
use strongclaw.Orchestration.Descriptors.{ProjectDescriptor}
use strongclaw.Orchestration.Descriptors.Contained.{
  Documented, IsProject, IsWorkspace, IsTarget, validate_token-Ensures, resolve_project-IsProject,
  resolve_workspace-IsWorkspace, resolve_delivery_target-IsTarget,
}
use strongclaw.Orchestration.Inputs.{role_names, resolve_paths}
use strongclaw.Orchestration.Inputs.Checked.{
  IsContext, IsArtifact, AbsentOr, positive_int-Ensures, nonempty_text-Ensures,
  nonblank_text-Ensures, member_text-Ensures, parse_expected_artifacts-All,
  parse_context_request-AbsentOr,
}
use strongclaw.Orchestration.Task.{
  auth_modes, task_permission_modes, task_workspace_modes, OrchestrationTask, checked_mode,
  task_project, task_workspace, delivery_target_from, task_delivery_target,
  resolve_orchestration_task,
}

checked_mode-Ensures :
    (modes : List String) (mode : Option String) (path : String)
    → Ensures (λ done. AbsentOr (λ m. contains modes m ≡ true) mode) (checked_mode modes mode path)
unfolding checked_mode
checked_mode-Ensures modes none path = ok-Ensures tt tt
checked_mode-Ensures modes (some mode) path =
    require_test-Ensures (contains modes mode) (wrong_value path)

module _ (rt : Runtime) (host : Host) where
  -- The descriptors belong together; every name is one of those allowed, every identity part but
  -- the backend is a token, the texts are not blank and the durations are positive.
  pub record IsTask (t : OrchestrationTask) : Type 0 where
    pub project : IsProject rt host t.project
    pub workspace : IsWorkspace rt host t.project t.workspace
    pub target : AbsentOr (IsTarget rt host t.project) t.delivery_target
    pub lane : IsToken t.lane
    pub kind : IsToken t.operation_kind
    pub role : contains role_names t.role ≡ true
    pub backend : is_nonempty t.backend ≡ true
    pub prompt : is_nonempty (strip t.prompt) ≡ true
    pub auth : contains auth_modes t.required_auth_mode ≡ true
    pub permissions : AbsentOr (λ m. contains task_permission_modes m ≡ true) t.permissions_mode
    pub modes : AbsentOr (λ m. contains task_workspace_modes m ≡ true) t.workspace_mode
    pub timeout : 0 < t.timeout_seconds
    pub context : AbsentOr IsContext t.context_request
    pub artifacts : All IsArtifact t.expected_artifacts

  module _ (d : Documented rt host) (base_dir : String) where
    task_project-IsProject :
        (task : Fields) → Ensures (IsProject rt host) (task_project rt host base_dir task)
    unfolding task_project
    task_project-IsProject task =
        bind-Ensures _ _ (Any-Ensures (as_mapping (get_value "project" task) "task.project"))
          (λ payload a.
            bind-Ensures _ _
              (Any-Ensures
                (resolve_path host base_dir (get_value "root" payload) "task.project.root"))
              (λ root b.
                bind-Ensures _ _
                  (Any-Ensures (
                    as_string_list (get_default "trusted_roots" (arr nil) payload)
                      "task.project.trusted_roots"))
                  (λ values c.
                    bind-Ensures _ _
                      (Any-Ensures
                        (resolve_paths host base_dir values "task.project.trusted_roots"))
                      (λ roots e.
                        bind-Ensures _ _
                          (Any-Ensures (
                            as_optional_mapping (get_value "metadata" payload)
                              "task.project.metadata"))
                          (λ metadata f.
                            resolve_project-IsProject rt host d root
                              (string_or_none (get_value "id" payload)) roots metadata)))))

    task_workspace-IsWorkspace :
        (task : Fields) (p : ProjectDescriptor)
        → IsProject rt host p
        → Ensures (IsWorkspace rt host p) (task_workspace rt host base_dir task p)
    unfolding task_workspace
    task_workspace-IsWorkspace task p h =
        bind-Ensures _ _ (Any-Ensures (as_mapping (get_value "workspace" task) "task.workspace"))
          (λ payload a.
            bind-Ensures _ _
              (Any-Ensures
                (resolve_path host base_dir (get_value "path" payload) "task.workspace.path"))
              (λ path b.
                bind-Ensures _ _
                  (Any-Ensures
                    (as_optional_mapping (get_value "metadata" payload) "task.workspace.metadata"))
                  (λ metadata c.
                    resolve_workspace-IsWorkspace rt host d p
                      (to_text rt (get_value "kind" payload)) path _ _ metadata h)))

    delivery_target_from-IsTarget :
        (v : Value) (p : ProjectDescriptor)
        → IsProject rt host p
        → Ensures (IsTarget rt host p) (delivery_target_from rt host base_dir v p)
    unfolding delivery_target_from
    delivery_target_from-IsTarget v p h =
        bind-Ensures _ _ (Any-Ensures (as_mapping v "task.delivery_target")) (λ payload a.
          bind-Ensures _ _
            (Any-Ensures (
              as_string (get_default "locator" (get_value "path" payload) payload)
                "task.delivery_target.locator"))
            (λ locator b.
              bind-Ensures _ _
                (Any-Ensures (
                  as_optional_mapping (get_value "metadata" payload)
                    "task.delivery_target.metadata"))
                (λ metadata c.
                  resolve_delivery_target-IsTarget rt host d p
                    (to_text rt (get_value "kind" payload)) locator _ metadata h)))

    task_delivery_target-AbsentOr :
        (v : Value) (p : ProjectDescriptor)
        → IsProject rt host p
        → Ensures (AbsentOr (IsTarget rt host p)) (task_delivery_target rt host base_dir v p)
    unfolding task_delivery_target
    task_delivery_target-AbsentOr null p h = ok-Ensures none tt
    task_delivery_target-AbsentOr v p h =
        bind-Ensures _ _ (delivery_target_from-IsTarget v p h)
          (λ target t. ok-Ensures (some target) t)

    resolve-IsTask-Ensures :
        (v : Value) → Ensures IsTask (resolve_orchestration_task rt host base_dir v)
    unfolding resolve_orchestration_task
    resolve-IsTask-Ensures v = bind-Ensures _ _ (Any-Ensures (as_mapping v "task")) (λ task a.
        bind-Ensures _ _ (task_project-IsProject task) (λ project hproject.
          bind-Ensures _ _ (task_workspace-IsWorkspace task project hproject)
            (λ workspace hworkspace.
              bind-Ensures _ _
                (Any-Ensures (as_string (get_default "lane" (str "default") task) "task.lane"))
                (λ lane b.
                  bind-Ensures _ _ (member_text-Ensures role_names (get_value "role" task) _)
                    (λ role hrole.
                      bind-Ensures _ _ (nonempty_text-Ensures (get_value "backend" task) _)
                        (λ backend hbackend.
                          bind-Ensures _ _ (nonblank_text-Ensures (get_value "prompt" task) _)
                            (λ prompt hprompt.
                              bind-Ensures _ _
                                (nonempty_text-Ensures
                                  (get_default "operation_kind" (str "worker_dispatch") task) _)
                                (λ operation c.
                                  bind-Ensures _ _
                                    (member_text-Ensures auth_modes
                                      (get_default "required_auth_mode" (str "subscription") task)
                                      _)
                                    (λ auth hauth.
                                      bind-Ensures _ _
                                        (positive_int-Ensures
                                          (get_default "timeout_seconds" (nat 1800) task) _)
                                        (λ timeout htimeout.
                                          bind-Ensures _ _
                                            (Any-Ensures (
                                              natural_int (get_default "retry_budget" (nat 0) task)
                                                "task.retry_budget"))
                                            (λ budget e.
                                              bind-Ensures _ _
                                                (Any-Ensures (
                                                  as_string_list
                                                    (get_default "allowed_capabilities" (arr nil)
                                                      task)
                                                    "task.allowed_capabilities"))
                                                (λ capabilities f.
                                                  bind-Ensures _ _
                                                    (task_delivery_target-AbsentOr
                                                      (get_value "delivery_target" task) project
                                                      hproject)
                                                    (λ target htarget.
                                                      bind-Ensures _ _
                                                        (checked_mode-Ensures task_permission_modes
                                                          (string_or_none
                                                            (get_value "permissions_mode" task))
                                                          _)
                                                        (λ g hpermissions.
                                                          bind-Ensures _ _
                                                            (checked_mode-Ensures
                                                            task_workspace_modes
                                                            (string_or_none
                                                            (get_value "workspace_mode" task))
                                                            _)
                                                            (λ k hmodes.
                                                            bind-Ensures _ _
                                                            (validate_token-Ensures "task.lane"
                                                            lane)
                                                            (λ valid_lane hlane.
                                                            bind-Ensures _ _
                                                            (validate_token-Ensures
                                                            "task.operation_kind" operation)
                                                            (λ valid_kind hkind.
                                                            bind-Ensures _ _
                                                            (parse_context_request-AbsentOr host
                                                            base_dir (get_value "context" task))
                                                            (λ context hcontext.
                                                            bind-Ensures _ _
                                                            (parse_expected_artifacts-All host
                                                            base_dir
                                                            (get_value "expected_artifacts" task))
                                                            (λ artifacts hartifacts.
                                                            ok-Ensures _ (record {
                                                            project = hproject;
                                                            workspace = hworkspace;
                                                            target = htarget;
                                                            lane = hlane;
                                                            kind = hkind;
                                                            role = hrole;
                                                            backend = hbackend;
                                                            prompt = hprompt;
                                                            auth = hauth;
                                                            permissions = hpermissions;
                                                            modes = hmodes;
                                                            timeout = htimeout;
                                                            context = hcontext;
                                                            artifacts = hartifacts;
                                                            }))))))))))))))))))))

-- Where the libraries do as documented, a task that `resolve_orchestration_task` returns has a
-- project, a workspace and a target that belong together, and only valid fields.
pub resolve_orchestration_task-IsTask :
    (rt : Runtime) (host : Host) (base_dir : String) (v : Value) (t : OrchestrationTask)
    → Documented rt host
    → resolve_orchestration_task rt host base_dir v ≡ ok t
    → IsTask rt host t
resolve_orchestration_task-IsTask rt host base_dir v t d e =
    (resolve-IsTask-Ensures rt host d base_dir v).at t e
