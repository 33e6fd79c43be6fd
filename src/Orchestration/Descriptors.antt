-- ===== src/Orchestration/Descriptors.antt =====
-- `ProjectDescriptor`, `WorkspaceDescriptor` and `DeliveryTargetDescriptor` of
-- src/clawops/orchestration.py, with their `resolve`.
pub mod Contained
use strongclaw.Prelude.{
  String, ◌<>◌, Bool, true, false, not, ◌||◌, Option, none, some, List, [], ◌∷◌, ◌==◌, contains,
  if◌then◌else◌,
}
use strongclaw.Prelude.Text.{strip, is_nonempty}
use strongclaw.Value.{str, Value, Fields, end}
use strongclaw.Value.Access.{get, put, update}
use strongclaw.Runtime.{Runtime}
use strongclaw.Result.{Result, ok, err, descriptor_error, require, ◌>>=◌, ◌>>◌}
use strongclaw.Orchestration.Tokens.{validate_token, stable_descriptor_id}
use strongclaw.Orchestration.Paths.{Host, resolved, dedupe_paths, within_any_root, git_stdout}

-- WORKSPACE_KINDS
abbrev pub workspace_kinds : List String
workspace_kinds =
    "git_worktree" ∷ "git_clone" ∷ "local_dir" ∷ "remote_sync_mirror" ∷ "artifact_bundle" ∷ []

-- DELIVERY_TARGET_KINDS
abbrev pub delivery_target_kinds : List String
delivery_target_kinds = "ssh" ∷ "ftp" ∷ "rsync" ∷ "s3" ∷ "manual_bundle" ∷ []

abbrev pub git_kinds : List String
git_kinds = "git_worktree" ∷ "git_clone" ∷ []

pub record ProjectDescriptor : Type 0 where
  pub project_id : String
  pub root : String
  pub trusted_roots : List String
  pub metadata : Fields

pub record WorkspaceDescriptor : Type 0 where
  pub project_id : String
  pub workspace_id : String
  pub kind : String
  pub root : String
  pub working_directory : String
  pub trusted_root : String
  pub branch : Option String
  pub metadata : Fields

pub record DeliveryTargetDescriptor : Type 0 where
  pub project_id : String
  pub target_id : String
  pub kind : String
  pub locator : String
  pub metadata : Fields

-- a new dictionary with the metadata, if there is any
unfoldable pub copy_metadata : Option Fields → Fields
copy_metadata none = end
copy_metadata (some fs) = update end fs

-- d.setdefault(key, value)
unfoldable pub set_default : String → Value → Fields → Fields
set_default key v fs = elim (get key fs) [ none ↦ put key v fs | some w ↦ fs ]

-- text or default
unfoldable pub text_or_default : Option String → String → String
text_or_default none default = default
text_or_default (some s) default = if is_nonempty s then s else default

-- `_validate_token(name, id) if id else` the derived id
unfoldable pub chosen_id : String → Option String → String → Result String
chosen_id name none derived = ok derived
chosen_id name (some id) derived = if is_nonempty id then validate_token name id else ok derived

-- what a git query has to return
unfoldable pub required_output : Option String → String → Result String
required_output (some out) directory = ok out
required_output none directory = err (descriptor_error "workspace is not a git checkout" directory)

-- The branch of a checkout: the actual one by default, and never another than that.
unfoldable pub checked_branch : Option String → Option String → Result (Option String)
checked_branch none actual = ok actual
checked_branch (some branch) none = ok (some branch)
checked_branch (some branch) (some actual) =
    if actual == branch
    then ok (some branch)
    else err (descriptor_error "workspace branch mismatch" (branch <> ", found " <> actual))

module _ (rt : Runtime) (host : Host) where
  -- `ProjectDescriptor.resolve`
  unfoldable pub resolve_project :
      String → Option String → List String → Option Fields → Result ProjectDescriptor
  unfolding copy_metadata chosen_id
  resolve_project root project_id trusted_roots metadata = do
    let resolved_root = resolved host root
    require (host.exists resolved_root)
        (descriptor_error "project root does not exist" resolved_root)
    require (host.is_dir resolved_root)
        (descriptor_error "project root is not a directory" resolved_root)
    id ←
        chosen_id "project_id" project_id
          (stable_descriptor_id rt (host.name resolved_root) resolved_root)
    ok (record {
      project_id = id;
      root = resolved_root;
      trusted_roots = dedupe_paths host (resolved_root ∷ trusted_roots);
      metadata = copy_metadata metadata;
    })

  -- whether a call returned
  unfoldable pub did_return : Result String → Bool
  did_return (ok root) = true
  did_return (err e) = false

  -- `ProjectDescriptor.contains`
  unfoldable pub project_contains : ProjectDescriptor → String → Bool
  unfolding did_return
  project_contains project path = did_return (within_any_root host path project.trusted_roots)

  -- the working directory of a workspace at a path that exists
  unfoldable pub working_directory_of : String → String → Result String
  working_directory_of kind path =
      if kind == "artifact_bundle"
      then (do
        require (host.is_file path || host.is_dir path)
            (descriptor_error "artifact bundle must be a file or directory" path)
        ok (if host.is_dir path then path else host.parent path))
      else (do
        require (host.is_dir path) (descriptor_error "workspace path must be a directory" path)
        ok path)

  -- what the git queries of a checkout make of the branch and the metadata
  unfoldable pub checkout :
      String → String → Option String → Fields → Result (Option String × Fields)
  unfolding set_default required_output checked_branch
  checkout kind directory branch metadata =
      if contains git_kinds kind
      then (do
        actual_root ←
            required_output (git_stdout host directory ("rev-parse" ∷ "--show-toplevel" ∷ []))
              directory
        resolved_branch ←
            checked_branch branch
              (git_stdout host directory ("symbolic-ref" ∷ "--short" ∷ "HEAD" ∷ []))
        ok (resolved_branch, set_default "git_root" (str actual_root) metadata))
      else ok (branch, metadata)

  -- `WorkspaceDescriptor.resolve`
  unfoldable pub resolve_workspace :
      ProjectDescriptor
      → String
      → String
      → Option String
      → Option String
      → Option Fields
      → Result WorkspaceDescriptor
  unfolding copy_metadata text_or_default chosen_id working_directory_of checkout
  resolve_workspace project kind path workspace_id branch metadata = do
    require (contains workspace_kinds kind) (descriptor_error "workspace kind" kind)
    let resolved_path = resolved host path
    require (host.exists resolved_path)
        (descriptor_error "workspace path does not exist" resolved_path)
    working_directory ← working_directory_of kind resolved_path
    trusted_root ← within_any_root host resolved_path project.trusted_roots
    checked ← checkout kind working_directory branch (copy_metadata metadata)
    id ← chosen_id "workspace_id" workspace_id (
        stable_descriptor_id rt kind
          (resolved_path <> ":" <> text_or_default checked.0 "no-branch"))
    ok (record {
      project_id = project.project_id;
      workspace_id = id;
      kind = kind;
      root = resolved_path;
      working_directory = working_directory;
      trusted_root = trusted_root;
      branch = checked.0;
      metadata = checked.1;
    })

  -- the check of a manual bundle
  unfoldable pub check_bundle : List String → String → String → Result (Unit {0})
  check_bundle trusted_roots kind locator =
      if kind == "manual_bundle"
      then (do
        let bundle = resolved host locator
        require (host.exists bundle) (descriptor_error "manual bundle does not exist" bundle)
        trusted_root ← within_any_root host bundle trusted_roots
        ok tt)
      else ok tt

  -- `DeliveryTargetDescriptor.resolve`
  unfoldable pub resolve_delivery_target :
      ProjectDescriptor
      → String
      → String
      → Option String
      → Option Fields
      → Result DeliveryTargetDescriptor
  unfolding copy_metadata chosen_id check_bundle
  resolve_delivery_target project kind locator target_id metadata = do
    require (contains delivery_target_kinds kind) (descriptor_error "delivery target kind" kind)
    require (is_nonempty (strip locator)) (descriptor_error "delivery target locator" locator)
    check_bundle project.trusted_roots kind locator
    id ← chosen_id "target_id" target_id (stable_descriptor_id rt kind locator)
    ok (record {
      project_id = project.project_id;
      target_id = id;
      kind = kind;
      locator = locator;
      metadata = copy_metadata metadata;
    })
