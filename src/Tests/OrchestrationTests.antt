-- ===== src/Tests/OrchestrationTests.antt =====
-- The theorems on task contracts (src/clawops/orchestration.py) at a concrete host and task.
use text.Mathlib.Text.{starts_with}
use strongclaw.Prelude.Int.{pos}
use strongclaw.Prelude.{String, ◌<>◌, true, false, ◌≡◌, refl, ◌⊎◌, none, some, [], ◌∷◌, map}
use strongclaw.Value.{Value, str, obj, end, field}
use strongclaw.Value.Access.{get, put}
use strongclaw.Value.Matching.{to_text}
use strongclaw.Runtime.{Runtime}
use strongclaw.Policy.Access.{value_or}
use strongclaw.Prelude.Text.{strip, take_text}
use strongclaw.Result.{ok, err, outside_roots, bad_token, ◌>>=◌}
use strongclaw.Typed.{
  get_value, get_default, as_mapping, as_optional_mapping, as_string, as_string_list,
  string_or_none, positive_int, natural_int, truth,
}
use strongclaw.Orchestration.Tokens.{
  every, is_token_char, slugify, validate_token, fullmatch, stable_descriptor_id,
}
use strongclaw.Orchestration.Tokens.Valid.{IsToken, stable_descriptor_id-IsToken}
use strongclaw.Orchestration.Identity.{
  SessionScope, LockScope, join_five, build_session_identity, build_lock_identity,
}
use strongclaw.Orchestration.Identity.Unique.{build_lock_identity-injective}
use strongclaw.Orchestration.Paths.{
  Host, resolved, completed, resolve_path, dedupe_paths, within_any_root, git_stdout,
}
use strongclaw.Orchestration.Paths.Distinct.{Holds, Outside, within_any_root_lem}
use strongclaw.Orchestration.Descriptors.{ProjectDescriptor, resolve_project, resolve_workspace}
use strongclaw.Orchestration.Descriptors.Contained.{Documented}
use strongclaw.Orchestration.Inputs.{
  nonempty_text, nonblank_text, member_text, resolve_paths, parse_expected_artifacts,
  parse_context_request,
}
use strongclaw.Orchestration.Task.{
  OrchestrationTask, session_identity, lock_identity, resolve_orchestration_task,
}
use strongclaw.Orchestration.Task.Checked.{IsTask, resolve_orchestration_task-IsTask}
use strongclaw.Orchestration.Task.Identities.{identities_of_task}
use strongclaw.Tests.Fixtures.{toy}

-- Every digest is the same text of hexadecimal digits.
abbrev pub hex : Runtime
hex = record toy { sha256_hex = λ s. "0123456789abcdef" }

-- Every absolute path exists, and is a directory; git is always on the branch main.
abbrev pub host : Host
host = record {
  expanduser = λ p. p;
  is_absolute = λ p. starts_with p "/";
  join = λ base p. base <> "/" <> p;
  resolve = λ p. p;
  name = λ p. "My Repo";
  parent = λ p. "/";
  relative_to = λ p root. starts_with p root;
  exists = λ p. true;
  is_dir = λ p. true;
  is_file = λ p. false;
  run = λ command. completed (pos 0) "main\n" "";
}

host-Documented : Documented hex host
unfolding every is_token_char resolved
host-Documented = record { digests = λ s. refl; stable = λ p. refl }

slugify_example : slugify "--My Repo (v2)!" ≡ "my-repo-v2"
unfolding slugify
slugify_example = refl

slugify_empty : slugify "!!!" ≡ "scope"
unfolding slugify
slugify_empty = refl

abbrev task_input : Value
task_input = obj (
    field "project" (obj (field "root" (str "repo") end)) (
      field "workspace"
        (obj (field "kind" (str "git_clone") (field "path" (str "/base/repo/src") end)))
        (field "role" (str "qa")
          (field "backend" (str "codex") (field "prompt" (str "Run the tests") end)))))

abbrev pub project : ProjectDescriptor
project = record {
  project_id = "my-repo-0123456789ab";
  root = "/base/repo";
  trusted_roots = "/base/repo" ∷ [];
  metadata = end;
}

abbrev pub task : OrchestrationTask
task = record {
  project = project;
  workspace = record {
    project_id = "my-repo-0123456789ab";
    workspace_id = "git_clone-0123456789ab";
    kind = "git_clone";
    root = "/base/repo/src";
    working_directory = "/base/repo/src";
    trusted_root = "/base/repo";
    branch = some "main";
    metadata = field "git_root" (str "main") end;
  };
  lane = "default";
  role = "qa";
  backend = "codex";
  backend_profile = none;
  permissions_mode = none;
  workspace_mode = none;
  prompt = "Run the tests";
  operation_kind = "worker_dispatch";
  allowed_capabilities = [];
  required_auth_mode = "subscription";
  approval_required = false;
  timeout_seconds = 1800;
  retry_budget = 0;
  artifact_contract_id = none;
  context_request = none;
  expected_artifacts = [];
  delivery_target = none;
}

task_resolved : resolve_orchestration_task hex host "/base" task_input ≡ ok task
unfolding resolve_orchestration_task get_value get_default as_mapping as_optional_mapping as_string
    as_string_list string_or_none positive_int natural_int truth resolve_path resolve_paths
    resolve_project resolve_workspace value_or get put to_text stable_descriptor_id dedupe_paths
    within_any_root git_stdout nonempty_text nonblank_text member_text parse_expected_artifacts
    parse_context_request validate_token fullmatch strip take_text resolved slugify
task_resolved = refl

abbrev session : SessionScope
session = record {
  backend = "codex";
  project_id = "my-repo";
  workspace_id = "main";
  lane = "default";
  role = "qa";
}

abbrev lock : LockScope
lock = record {
  project_id = "my-repo";
  workspace_id = "main";
  lane = "default";
  role = "qa";
  operation_kind = "worker_dispatch";
}

session_built : build_session_identity session ≡ ok "codex:my-repo:main:default:qa"
unfolding build_session_identity validate_token fullmatch strip every is_token_char
session_built = refl

lock_built : build_lock_identity lock ≡ ok "my-repo:main:default:qa:worker_dispatch"
unfolding build_lock_identity validate_token fullmatch strip every is_token_char
lock_built = refl

build_lock_identity-injective_example : lock ≡ lock
build_lock_identity-injective_example =
    build_lock_identity-injective lock lock "my-repo:main:default:qa:worker_dispatch" lock_built
      lock_built

-- A colon in a field is refused.
session_refused :
    build_session_identity (record session { backend = "a:b" }) ≡ err (bad_token "backend" "a:b")
unfolding build_session_identity validate_token fullmatch strip every is_token_char
session_refused = refl

stable_descriptor_id-IsToken_example : IsToken (stable_descriptor_id hex "My Repo" "/base/repo")
stable_descriptor_id-IsToken_example =
    stable_descriptor_id-IsToken hex "My Repo" "/base/repo" (unfold every is_token_char in refl)

within_any_root_lem_example :
    ((root : String) × (within_any_root host "/b/c" ("/a" ∷ "/b" ∷ []) ≡ ok root)
      × Holds host (resolved host "/b/c") ("/a" ∷ "/b" ∷ []) root)
    ⊎ ((within_any_root host "/b/c" ("/a" ∷ "/b" ∷ [])
          ≡ err (outside_roots (resolved host "/b/c") (map (resolved host) ("/a" ∷ "/b" ∷ []))))
        × Outside host (resolved host "/b/c") ("/a" ∷ "/b" ∷ []))
within_any_root_lem_example = within_any_root_lem host "/b/c" ("/a" ∷ "/b" ∷ [])

resolve_orchestration_task-IsTask_example : IsTask hex host task
resolve_orchestration_task-IsTask_example =
    resolve_orchestration_task-IsTask hex host "/base" task_input task host-Documented task_resolved

identities_of_task_example :
    (lock_identity task
      ≡ ok (
          join_five "my-repo-0123456789ab" "git_clone-0123456789ab" "default" "qa"
            "worker_dispatch"))
    × (session_identity task ≡ (do
      backend ← validate_token "backend" "codex"
      ok (join_five backend "my-repo-0123456789ab" "git_clone-0123456789ab" "default" "qa")))
identities_of_task_example =
    identities_of_task hex host "/base" task_input task host-Documented task_resolved
