-- ===== src/Acp/Session.antt =====
-- `run_session` of src/clawops/acp_runner.py: the lock, the lease and the call of acpx.
pub mod Guarded
pub mod Released
pub mod Finishes
use strongclaw.Prelude.Int.{ℤ, show_int}
use strongclaw.Prelude.{
  ℕ, String, ◌<>◌, Bool, true, false, ◌&&◌, not, Option, none, some, List, [], ◌∷◌, if◌then◌else◌,
}
use strongclaw.Prelude.Text.{is_nonempty, show_nat}
use strongclaw.Value.{str, Fields, end, field}
use strongclaw.Runtime.{Runtime}
use strongclaw.Result.{Result, ok, err, Error, lease_conflict, adapter_raised}
use strongclaw.Journal.Rows.{SessionLease, Journal}
use strongclaw.Journal.Lease.{LeaseRequest, acquire_lease, release_lease}
use strongclaw.Orchestration.Contract.{text_value}
use strongclaw.Orchestration.Paths.{Host, is_zero}
use strongclaw.Acp.Spec.{
  SessionSpec, BackendDefinition, CredentialStatus, preflight_errors, spec_session_identity,
  spec_lock_identity, build_invocation, command, applied_mode, lock_path,
}

-- What `AcpxAdapter().run` returns of its process; the code is negative if a signal ended it.
pub record AcpxResult : Type 0 where
  pub returncode : Option ℤ
  pub stderr : String
  pub timed_out : Bool
  pub failed_to_start : Bool

pub data AcpxOutcome : Type 0 where
  finished : AcpxResult → AcpxOutcome
  raised : String → AcpxOutcome

-- `CommandResult.ok`
unfoldable pub acpx_ok : AcpxResult → Bool
unfolding is_zero
acpx_ok r = not r.timed_out && not r.failed_to_start && is_zero r.returncode

-- `SessionSummary`, without what it repeats of the spec, and without times and the other paths
pub record SessionSummary : Type 0 where
  pub ok : Bool
  pub status : String
  pub message : String
  pub returncode : Option ℤ
  pub lease_id : Option String
  pub summary_path : String

-- A call that may have run acpx: what it returned, the journal, and how often it called acpx.
pub record Ran (A : Type 0) : Type 0 where
  pub returned : Result A
  pub journal : Journal
  pub runs : ℕ

-- str(returncode)
unfoldable pub code_text : Option ℤ → String
code_text none = "None"
code_text (some n) = show_int n

unfoldable pub failed_summary : String → String → String → SessionSummary
failed_summary path status message = record {
  ok = false;
  status = status;
  message = message;
  returncode = none;
  lease_id = none;
  summary_path = path;
}

-- the summary of a call of acpx that came back
unfoldable pub conclude : String → SessionSpec → String → AcpxResult → SessionSummary
unfolding failed_summary acpx_ok code_text
conclude path s lease r =
    if r.timed_out
    then record (failed_summary path "timed_out"
        ("acpx timed out after " <> show_nat s.timeout_seconds <> "s")) { lease_id = some lease }
    else if r.failed_to_start
    then record (failed_summary path "failed_to_start"
        (if is_nonempty r.stderr then r.stderr else "acpx failed to start")) {
          lease_id = some lease;
        }
    else if acpx_ok r
    then record {
      ok = true;
      status = "succeeded";
      message = "acpx session completed successfully";
      returncode = r.returncode;
      lease_id = some lease;
      summary_path = path;
    }
    else record {
      ok = false;
      status = "failed";
      message = "acpx exited with status " <> code_text r.returncode;
      returncode = r.returncode;
      lease_id = some lease;
      summary_path = path;
    }

-- the path of the summary, in the session's directory; its parts are taken as pathlib leaves them
unfoldable pub session_summary_path : String → SessionSpec → String
session_summary_path started s =
    s.state_dir <> "/" <> s.project.project_id <> "/" <> s.workspace.workspace_id <> "/" <> s.lane
    <> "/" <> s.role <> "/" <> s.backend <> "/" <> started <> "/summary.json"

-- What a session uses of the rest: the host with `shutil.which`, the backend and the credentials
-- that it resolves, what acpx does with a command while other processes go on with the journal,
-- whether another process has the lock file, `str` of an error, and `_timestamp_token` of the start.
pub record Worker : Type 0 where
  pub host : Host
  pub which : String → Bool
  pub backend : BackendDefinition
  pub credentials : CredentialStatus
  pub acpx : List String → Journal → AcpxOutcome × Journal
  pub locked : String → Bool
  pub error_text : Error → String
  pub started : String

module _ (rt : Runtime) (w : Worker) where
  unfoldable pub lease_metadata : SessionSpec → Fields
  lease_metadata s = field "backend_profile" (text_value s.backend_profile) (
      field "permissions_mode"
        (str (applied_mode s.permissions_mode w.backend.default_permission_mode))
        (field "output_format" (str s.output_format)
          (field "workspace_kind" (str s.workspace.kind) end)))

  -- the arguments of `acquire_lease`
  unfoldable pub lease_request : SessionSpec → String → String → LeaseRequest
  unfolding lease_metadata
  lease_request s session lock = record {
    lock_identity = lock;
    session_identity = session;
    backend = s.backend;
    project_id = s.project.project_id;
    workspace_id = s.workspace.workspace_id;
    lane = s.lane;
    role = s.role;
    operation_kind = s.operation_kind;
    holder = s.workspace.working_directory;
    ttl_seconds = s.ttl_seconds;
    metadata = some (lease_metadata s);
  }

  -- the release of the lease and the summary
  unfoldable pub released :
      SessionSummary → Journal → Result (SessionLease × Journal) → Ran SessionSummary
  released summary j (err e) = record { returned = err e; journal = j; runs = 1 }
  released summary j (ok r) = record { returned = ok summary; journal = r.1; runs = 1 }

  -- after acpx: an exception leaves the lease as it is
  unfoldable pub after_acpx :
      ℕ → SessionSpec → String → String → AcpxOutcome × Journal → Ran SessionSummary
  unfolding conclude released session_summary_path
  after_acpx later s session lease (raised e, j) = record {
    returned = err (adapter_raised e);
    journal = j;
    runs = 1;
  }
  after_acpx later s session lease (finished r, j) =
      released (conclude (session_summary_path w.started s) s lease r) j
        (release_lease later lease session j)

  -- with the lease, or with what `acquire_lease` raised
  unfoldable pub with_lease :
      ℕ → SessionSpec → String → Journal → Result (SessionLease × Journal) → Ran SessionSummary
  unfolding after_acpx failed_summary session_summary_path
  with_lease later s session j (err (lease_conflict lock holder)) = record {
    returned = ok (
        failed_summary (session_summary_path w.started s) "lock_conflict"
          (w.error_text (lease_conflict lock holder)));
    journal = j;
    runs = 0;
  }
  with_lease later s session j (err e) = record { returned = err e; journal = j; runs = 0 }
  with_lease later s session j (ok r) =
      after_acpx later s session r.0.lease_id (w.acpx (command (build_invocation w.backend s)) r.1)

  -- behind the lock file
  unfoldable pub locked_session :
      ℕ → ℕ → SessionSpec → String → String → Journal → Ran SessionSummary
  unfolding with_lease lease_request failed_summary session_summary_path
  locked_session now later s session lock j =
      if w.locked (lock_path rt s lock)
      then record {
        returned = ok (
            failed_summary (session_summary_path w.started s) "lock_conflict"
              ("session already locked: " <> lock_path rt s lock));
        journal = j;
        runs = 0;
      }
      else with_lease later s session j (acquire_lease rt now (lease_request s session lock) j)

  -- "; ".join(errors)
  unfoldable pub join_errors : List String → String
  join_errors [] = ""
  join_errors (e ∷ []) = e
  join_errors (e ∷ f ∷ errors) = e <> "; " <> join_errors (f ∷ errors)

  -- after the preflight
  unfoldable pub checked_session :
      ℕ → ℕ → List String → SessionSpec → String → String → Journal → Ran SessionSummary
  unfolding locked_session join_errors failed_summary session_summary_path
  checked_session now later [] s session lock j = locked_session now later s session lock j
  checked_session now later (e ∷ errors) s session lock j = record {
    returned = ok (
        failed_summary (session_summary_path w.started s) "preflight_failed"
          (join_errors (e ∷ errors)));
    journal = j;
    runs = 0;
  }

  unfoldable pub identified :
      ℕ
      → ℕ
      → List String
      → SessionSpec
      → Result String
      → Result String
      → Journal
      → Ran SessionSummary
  unfolding checked_session
  identified now later errors s (err e) lock j = record { returned = err e; journal = j; runs = 0 }
  identified now later errors s (ok session) (err e) j = record {
    returned = err e;
    journal = j;
    runs = 0;
  }
  identified now later errors s (ok session) (ok lock) j =
      checked_session now later errors s session lock j

  -- `run_session`; `now` and `later` are the times at which it acquires and releases the lease
  unfoldable pub run_session : ℕ → ℕ → SessionSpec → Journal → Ran SessionSummary
  unfolding identified
  run_session now later s j =
      identified now later (preflight_errors rt w.host w.which s w.backend w.credentials) s
        (spec_session_identity s) (spec_lock_identity s) j
