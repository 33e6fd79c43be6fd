-- ===== src/Orchestration/Paths.antt =====
-- Paths of src/clawops/orchestration.py: `_resolve_path`, `_dedupe_paths`, `_within_any_root` and
-- `_git_stdout`, with `run_command` of src/clawops/process_runner.py. A path is its POSIX text.
pub mod Distinct
use strongclaw.Prelude.Int.{ℤ, pos, negsuc}
use strongclaw.Prelude.{
  String, Bool, true, false, not, ◌&&◌, Option, none, some, List, [], ◌∷◌, map, eqb, contains,
  if◌then◌else◌,
}
use strongclaw.Prelude.Text.{strip}
use strongclaw.Value.{Value, str}
use strongclaw.Result.{Result, ok, err, wrong_type, outside_roots}

-- What `subprocess.run` returns (code, stdout and stderr) or raises. The code of a process that a
-- signal ended is negative.
pub data Completion : Type 0 where
  completed : ℤ → String → String → Completion
  timeout_expired : String → String → Completion
  os_error : String → Completion

-- What the code calls of `pathlib` and `subprocess`, on a file system that does not change
-- meanwhile. `relative_to path root` says whether `path.relative_to(root)` returns.
pub record Host : Type 0 where
  pub expanduser : String → String
  pub is_absolute : String → Bool
  pub join : String → String → String
  pub resolve : String → String
  pub name : String → String
  pub parent : String → String
  pub relative_to : String → String → Bool
  pub exists : String → Bool
  pub is_dir : String → Bool
  pub is_file : String → Bool
  pub run : List String → Completion

-- `CommandResult`, without its duration
pub record CommandResult : Type 0 where
  pub returncode : Option ℤ
  pub stdout : String
  pub stderr : String
  pub timed_out : Bool
  pub failed_to_start : Bool

-- returncode == 0
unfoldable pub is_zero : Option ℤ → Bool
is_zero none = false
is_zero (some (pos n)) = eqb n 0
is_zero (some (negsuc n)) = false

-- `CommandResult.ok`
unfoldable pub command_ok : CommandResult → Bool
unfolding is_zero
command_ok r = not r.timed_out && not r.failed_to_start && is_zero r.returncode

-- what `run_command` makes of it
unfoldable pub command_result : Completion → CommandResult
command_result (completed code out errors) = record {
  returncode = some code;
  stdout = out;
  stderr = errors;
  timed_out = false;
  failed_to_start = false;
}
command_result (timeout_expired out errors) = record {
  returncode = none;
  stdout = out;
  stderr = errors;
  timed_out = true;
  failed_to_start = false;
}
command_result (os_error message) = record {
  returncode = none;
  stdout = "";
  stderr = message;
  timed_out = false;
  failed_to_start = true;
}

module _ (host : Host) where
  -- path.expanduser().resolve()
  unfoldable pub resolved : String → String
  resolved path = host.resolve (host.expanduser path)

  -- `_resolve_path`
  unfoldable pub resolve_path : String → Value → String → Result String
  resolve_path base_dir (str s) field_name =
      let raw = host.expanduser s in
      ok (host.resolve (if host.is_absolute raw then raw else host.join base_dir raw))
  resolve_path base_dir v field_name = err (wrong_type field_name)

  -- the loop of `_dedupe_paths`
  unfoldable pub dedupe_from : List String → List String → List String
  dedupe_from seen [] = []
  dedupe_from seen (p ∷ paths) =
      let key = resolved p in
      let rest = dedupe_from (if contains seen key then seen else key ∷ seen) paths in
      if contains seen key then rest else key ∷ rest

  -- `_dedupe_paths`
  unfoldable pub dedupe_paths : List String → List String
  unfolding dedupe_from
  dedupe_paths paths = dedupe_from [] paths

  -- the loop of `_within_any_root`, over the resolved path
  unfoldable pub find_root : String → List String → Option String
  find_root path [] = none
  find_root path (root ∷ roots) =
      if host.relative_to path (resolved root) then some (resolved root) else find_root path roots

  unfoldable pub root_or_error : String → List String → Option String → Result String
  root_or_error path roots (some root) = ok root
  root_or_error path roots none = err (outside_roots path (map resolved roots))

  -- `_within_any_root`
  unfoldable pub within_any_root : String → List String → Result String
  unfolding resolved find_root root_or_error
  within_any_root path roots = root_or_error (resolved path) roots (find_root (resolved path) roots)

  -- `_git_stdout`
  unfoldable pub git_stdout : String → List String → Option String
  unfolding command_ok command_result
  git_stdout path arguments =
      let r = command_result (host.run ("git" ∷ "-C" ∷ path ∷ arguments)) in
      if command_ok r then some (strip r.stdout) else none
