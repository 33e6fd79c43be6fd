-- ===== src/Orchestration/Identity.antt =====
-- `build_session_identity` and `build_lock_identity` of src/clawops/orchestration.py.
pub mod Unique
use Prim.Native.Char.{Char, code}
use strongclaw.Prelude.{String, ◌<>◌}
use text.Mathlib.TextLemmas.{nil-append, cons-append, head-eq_of_cons-eq, tail-eq_of_cons-eq}
use strongclaw.Result.{Result, ok, ◌>>=◌, ◌>>◌}
use strongclaw.Orchestration.Tokens.{validate_token}

pub record SessionScope : Type 0 where
  pub backend : String
  pub project_id : String
  pub workspace_id : String
  pub lane : String
  pub role : String

pub record LockScope : Type 0 where
  pub project_id : String
  pub workspace_id : String
  pub lane : String
  pub role : String
  pub operation_kind : String

-- ":".join of five texts
unfoldable pub join_five : String → String → String → String → String → String
join_five a b c d e = a <> ":" <> b <> ":" <> c <> ":" <> d <> ":" <> e

-- `build_session_identity`
unfoldable pub build_session_identity : SessionScope → Result String
unfolding join_five
build_session_identity q = do
  backend ← validate_token "backend" q.backend
  project_id ← validate_token "project_id" q.project_id
  workspace_id ← validate_token "workspace_id" q.workspace_id
  lane ← validate_token "lane" q.lane
  role ← validate_token "role" q.role
  ok (join_five backend project_id workspace_id lane role)

-- `build_lock_identity`
unfoldable pub build_lock_identity : LockScope → Result String
unfolding join_five
build_lock_identity q = do
  project_id ← validate_token "project_id" q.project_id
  workspace_id ← validate_token "workspace_id" q.workspace_id
  lane ← validate_token "lane" q.lane
  role ← validate_token "role" q.role
  operation_kind ← validate_token "operation_kind" q.operation_kind
  ok (join_five project_id workspace_id lane role operation_kind)
