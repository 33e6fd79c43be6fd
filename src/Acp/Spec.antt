-- ===== src/Acp/Spec.antt =====
-- `SessionSpec`, `_preflight_errors` and `_build_invocation` of src/clawops/acp_runner.py, with what
-- they use of src/clawops/backend_registry.py, credential_broker.py and acpx_adapter.py.
use strongclaw.Prelude.{
  ℕ, String, ◌<>◌, Bool, ◌&&◌, not, Option, none, some, List, [], ◌∷◌, ◌++◌, ◌==◌, ltb, contains,
  if◌then◌else◌,
}
use strongclaw.Prelude.Text.{strip, is_nonempty, take_text}
use strongclaw.Runtime.{Runtime}
use strongclaw.Result.{Result}
use strongclaw.Orchestration.Identity.{build_session_identity, build_lock_identity}
use strongclaw.Orchestration.Paths.{Host}
use strongclaw.Orchestration.Descriptors.{
  ProjectDescriptor, WorkspaceDescriptor, git_kinds, project_contains,
}

-- `SessionSpec`, without the fields that only the summary repeats
pub record SessionSpec : Type 0 where
  pub backend : String
  pub prompt : String
  pub project : ProjectDescriptor
  pub workspace : WorkspaceDescriptor
  pub lane : String
  pub role : String
  pub operation_kind : String
  pub state_dir : String
  pub timeout_seconds : ℕ
  pub ttl_seconds : ℕ
  pub backend_profile : Option String
  pub permissions_mode : Option String
  pub output_format : String
  pub config_path : Option String

-- `SessionSpec.session_identity`
unfoldable pub spec_session_identity : SessionSpec → Result String
spec_session_identity s = build_session_identity (record {
  backend = s.backend;
  project_id = s.project.project_id;
  workspace_id = s.workspace.workspace_id;
  lane = s.lane;
  role = s.role;
})

-- `SessionSpec.lock_identity`
unfoldable pub spec_lock_identity : SessionSpec → Result String
spec_lock_identity s = build_lock_identity (record {
  project_id = s.project.project_id;
  workspace_id = s.workspace.workspace_id;
  lane = s.lane;
  role = s.role;
  operation_kind = s.operation_kind;
})

-- What a session reads of `BackendDefinition`.
pub record BackendDefinition : Type 0 where
  pub name : String
  pub agent_name : String
  pub supported_auth_modes : List String
  pub supported_permission_modes : List String
  pub default_permission_mode : String
  pub supported_output_formats : List String

-- What a session reads of `CredentialStatus`.
pub record CredentialStatus : Type 0 where
  pub auth_mode : String
  pub state : String
  pub message : String

-- `CredentialStatus.ready`
unfoldable pub is_ready : CredentialStatus → Bool
is_ready c = contains ("ready" ∷ []) c.state

-- if bad: errors.append(message)
unfoldable pub blocked_by : Bool → String → List String
blocked_by bad message = if bad then message ∷ [] else []

-- the error of a permissions mode that is given and not supported
unfoldable pub mode_errors : BackendDefinition → Option String → List String
unfolding blocked_by
mode_errors d none = []
mode_errors d (some mode) =
    blocked_by (not (contains d.supported_permission_modes mode))
      ("backend " <> d.name <> " does not support permissions mode " <> mode)

module _ (rt : Runtime) (host : Host) (which : String → Bool) where
  unfoldable pub config_errors : Option String → List String
  unfolding blocked_by
  config_errors none = []
  config_errors (some path) =
      if not (host.exists path)
      then ("config path does not exist: " <> path) ∷ []
      else blocked_by (not (host.is_file path)) ("config path must be a file: " <> path)

  -- `_preflight_errors`
  unfoldable pub preflight_errors : SessionSpec → BackendDefinition → CredentialStatus → List String
  unfolding blocked_by mode_errors config_errors is_ready
  preflight_errors s d c =
      blocked_by (not (is_nonempty (strip s.prompt))) "prompt must not be empty"
      ++ (blocked_by (not (ltb 0 s.timeout_seconds)) "timeout_seconds must be positive"
          ++ (blocked_by (not (ltb 0 s.ttl_seconds)) "ttl_seconds must be positive"
              ++ (blocked_by (not (which "acpx")) "acpx executable not found in PATH"
                  ++ (blocked_by (contains git_kinds s.workspace.kind && not (which "git"))
                        "git executable not found in PATH"
                      ++ (blocked_by (not (host.exists s.project.root))
                            ("project_root does not exist: " <> s.project.root)
                          ++ (blocked_by (not (host.exists s.workspace.root))
                                ("workspace does not exist: " <> s.workspace.root)
                              ++ (blocked_by (not (host.is_dir s.workspace.working_directory)) (
                                    "working directory is not a directory: "
                                    <> s.workspace.working_directory)
                                  ++ (blocked_by
                                        (not (project_contains rt host s.project s.workspace.root))
                                        ("workspace must stay under trusted project roots: "
                                          <> s.workspace.root)
                                      ++ (blocked_by
                                            (not (contains d.supported_auth_modes c.auth_mode))
                                            ("backend " <> d.name <> " does not support auth mode "
                                              <> c.auth_mode)
                                          ++ (mode_errors d s.permissions_mode
                                              ++ (blocked_by
                                                    (not (
                                                      contains d.supported_output_formats
                                                        s.output_format))
                                                    ("backend " <> d.name
                                                      <> " does not support output format "
                                                      <> s.output_format)
                                                  ++ (config_errors s.config_path
                                                      ++ blocked_by (not (is_ready c))
                                                          c.message))))))))))))

-- `AcpxInvocation`, with `no_wait` at its default
pub record AcpxInvocation : Type 0 where
  pub agent_name : String
  pub prompt : String
  pub cwd : String
  pub timeout_seconds : ℕ
  pub permissions_mode : String
  pub output_format : String
  pub backend_profile : Option String

-- mode or the default of the backend
unfoldable pub applied_mode : Option String → String → String
applied_mode none default = default
applied_mode (some mode) default = mode

-- `_build_invocation`
unfoldable pub build_invocation : BackendDefinition → SessionSpec → AcpxInvocation
unfolding applied_mode
build_invocation d s = record {
  agent_name = d.agent_name;
  prompt = s.prompt;
  cwd = s.workspace.working_directory;
  timeout_seconds = s.timeout_seconds;
  permissions_mode = applied_mode s.permissions_mode d.default_permission_mode;
  output_format = s.output_format;
  backend_profile = s.backend_profile;
}

unfoldable pub permission_flags : String → List String
permission_flags mode =
    if mode == "approve-all"
    then "--approve-all" ∷ []
    else if mode == "approve-reads"
    then "--approve-reads" ∷ []
    else if mode == "deny-all"
    then "--deny-all" ∷ []
    else []

unfoldable pub model_flags : Option String → List String
model_flags none = []
model_flags (some profile) = "--model" ∷ profile ∷ []

-- `AcpxInvocation.command`
unfoldable pub command : AcpxInvocation → List String
unfolding permission_flags model_flags
command v =
    "acpx"
    ∷ (permission_flags v.permissions_mode
        ++ ((if v.output_format == "text"
              then "--format" ∷ "text" ∷ []
              else "--format" ∷ "json" ∷ "--json-strict" ∷ [])
            ++ (model_flags v.backend_profile ++ (v.agent_name ∷ "exec" ∷ v.prompt ∷ []))))

-- the path of the lock file, with `_lock_name`
unfoldable pub lock_path : Runtime → SessionSpec → String → String
lock_path rt s lock = s.state_dir <> "/locks/" <> take_text 16 (rt.sha256_hex lock) <> ".lock"
