-- ===== src/Orchestration/Contract.antt =====
-- `OrchestrationTask.to_contract` and `task_contract_hash` of src/clawops/orchestration.py.
pub mod Identities
use strongclaw.Prelude.{String, Option, none, some, List, [], ◌∷◌}
use strongclaw.Value.{Value, str, obj, arr, nat, bool, null, Items, nil, cons, Fields, end, field}
use strongclaw.Value.Access.{put}
use strongclaw.Runtime.{Runtime}
use strongclaw.Orchestration.Descriptors.{DeliveryTargetDescriptor}
use strongclaw.Orchestration.Inputs.{ContextRequest, ExpectedArtifact}
use strongclaw.Orchestration.Task.{OrchestrationTask}

-- a text or None
unfoldable pub text_value : Option String → Value
text_value none = null
text_value (some s) = str s

-- a list of texts
unfoldable pub string_items : List String → Items
string_items [] = nil
string_items (s ∷ texts) = cons (str s) (string_items texts)

unfoldable pub artifact_to_dict : ExpectedArtifact → Fields
artifact_to_dict a =
    field "name" (str a.name) (
      field "role" (str a.role)
        (field "path" (str a.path) (field "required" (bool a.required) end)))

unfoldable pub artifact_items : List ExpectedArtifact → Items
unfolding artifact_to_dict
artifact_items [] = nil
artifact_items (a ∷ artifacts) = cons (obj (artifact_to_dict a)) (artifact_items artifacts)

unfoldable pub context_to_dict : ContextRequest → Fields
unfolding string_items
context_to_dict c = field "provider" (str c.provider) (
    field "scale" (str c.scale) (
      field "config_path" (str c.config_path) (
        field "query" (str c.query) (
          field "limit" (nat c.limit) (
            field "ttl_seconds" (nat c.ttl_seconds)
              (field "prior_artifacts" (arr (string_items c.prior_artifacts)) end))))))

unfoldable pub target_to_dict : DeliveryTargetDescriptor → Fields
target_to_dict t =
    field "target_id" (str t.target_id)
      (field "kind" (str t.kind) (field "locator" (str t.locator) end))

-- payload["context"] and payload["delivery_target"], where there is one
unfoldable pub with_context : Option ContextRequest → Fields → Fields
unfolding context_to_dict
with_context none payload = payload
with_context (some c) payload = put "context" (obj (context_to_dict c)) payload

unfoldable pub with_target : Option DeliveryTargetDescriptor → Fields → Fields
unfolding target_to_dict
with_target none payload = payload
with_target (some t) payload = put "delivery_target" (obj (target_to_dict t)) payload

module _ (rt : Runtime) where
  -- the entries that every contract has
  unfoldable pub base_contract : OrchestrationTask → Fields
  unfolding text_value string_items artifact_items
  base_contract t = field "schema_version" (nat 1) (
      field "project_id" (str t.project.project_id) (
        field "workspace_id" (str t.workspace.workspace_id) (
          field "workspace_kind" (str t.workspace.kind) (
            field "lane" (str t.lane) (
              field "role" (str t.role) (
                field "backend" (str t.backend) (
                  field "backend_profile" (text_value t.backend_profile) (
                    field "permissions_mode" (text_value t.permissions_mode) (
                      field "workspace_mode" (text_value t.workspace_mode) (
                        field "prompt_sha256" (str (rt.sha256_hex t.prompt)) (
                          field "operation_kind" (str t.operation_kind) (
                            field "allowed_capabilities" (arr (string_items t.allowed_capabilities))
                              (field "required_auth_mode" (str t.required_auth_mode) (
                                field "approval_required" (bool t.approval_required) (
                                  field "timeout_seconds" (nat t.timeout_seconds) (
                                    field "retry_budget" (nat t.retry_budget) (
                                      field "artifact_contract_id"
                                        (text_value t.artifact_contract_id)
                                        (field "expected_artifacts"
                                          (arr (artifact_items t.expected_artifacts))
                                          end))))))))))))))))))

  -- `OrchestrationTask.to_contract`
  unfoldable pub to_contract : OrchestrationTask → Fields
  unfolding base_contract with_context with_target
  to_contract t = with_target t.delivery_target (with_context t.context_request (base_contract t))

  -- `task_contract_hash`
  unfoldable pub task_contract_hash : OrchestrationTask → String
  unfolding to_contract
  task_contract_hash t = rt.sha256_hex (rt.canonical_json (obj (to_contract t)))
