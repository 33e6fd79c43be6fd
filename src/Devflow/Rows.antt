-- ===== src/Devflow/Rows.antt =====
-- The rows of src/clawops/devflow_state.py. A path is a text that has been expanded and resolved.
use strongclaw.Prelude.{ℕ, String, Option, List, []}

pub record Run : Type 0 where
  pub run_id : String
  pub created_at_ms : ℕ
  pub updated_at_ms : ℕ
  pub status : String
  pub repo_root : String
  pub project_id : String
  pub workspace_id : String
  pub lane : String
  pub goal : String
  pub run_profile : String
  pub bootstrap_profile : String
  pub workflow_path : String
  pub plan_sha256 : String
  pub current_stage_name : Option String
  pub requested_by : String
  pub resume_token : Option String
  pub summary_json : Option String

pub record Stage : Type 0 where
  pub stage_id : String
  pub run_id : String
  pub stage_name : String
  pub stage_index : ℕ
  pub role : String
  pub workspace_root : String
  pub op_id : Option String
  pub session_identity : Option String
  pub status : String
  pub retry_budget : ℕ
  pub retry_count : ℕ
  pub summary_path : Option String
  pub audit_path : Option String
  pub artifact_manifest_path : Option String
  pub started_at_ms : Option ℕ
  pub finished_at_ms : Option ℕ

pub record StageEvent : Type 0 where
  pub event_id : String
  pub run_id : String
  pub stage_name : String
  pub event_kind : String
  pub payload_json : Option String
  pub created_at_ms : ℕ

-- The three tables of the database.
pub record Devflow : Type 0 where
  pub runs : List Run
  pub stages : List Stage
  pub events : List StageEvent

abbrev pub no_runs : Devflow
no_runs = record { runs = []; stages = []; events = [] }
