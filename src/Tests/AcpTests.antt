-- ===== src/Tests/AcpTests.antt =====
-- The theorems on ACP sessions and worker dispatches (src/clawops/acp_runner.py and
-- src/clawops/workflow_runner.py) at a concrete worker, task and journal.
use strongclaw.Prelude.Int.{pos}
use strongclaw.Prelude.{String, true, false, ◌≡◌, refl, ◌<◌, arith, none, some, [], ◌∷◌}
use strongclaw.Prelude.Text.{strip, take_text}
use strongclaw.Value.{null}
use strongclaw.Result.{ok, err, invalid_transition}
use strongclaw.Journal.Rows.{Operation, SessionLease, Journal}
use strongclaw.Journal.Status.{allowed_transitions, targets, is_allowed}
use strongclaw.Journal.Tables.{find_op, find_key}
use strongclaw.Journal.Begin.{idempotency_key}
use strongclaw.Journal.Lease.{
  acquire_lease, release_lease, new_lease, find_lease, release_all, find_unreleased, expire_all,
  insert_lease, lease_id_at,
}
use strongclaw.Journal.Lease.Protocol.{find_holder}
use strongclaw.Orchestration.Tokens.{every, is_token_char, fullmatch, validate_token}
use strongclaw.Orchestration.Identity.{build_session_identity, build_lock_identity}
use strongclaw.Orchestration.Paths.{resolved, within_any_root}
use strongclaw.Orchestration.Descriptors.{project_contains}
use strongclaw.Orchestration.Task.{OrchestrationTask, session_identity}
use strongclaw.Acp.Spec.{SessionSpec, preflight_errors, spec_session_identity, spec_lock_identity}
use strongclaw.Acp.Session.{
  Worker, SessionSummary, AcpxResult, finished, conclude, session_summary_path, lease_request,
  run_session,
}
use strongclaw.Acp.Session.Guarded.{Refused, run_session-Refused, Granted, run_session-Granted}
use strongclaw.Acp.Session.Released.{IsReleased, run_session-IsReleased}
use strongclaw.Acp.Session.Finishes.{run_session_finishes}
use strongclaw.Acp.Worker.{
  DispatchStep, Office, session_spec, stopped, task_request, prepare_context, worker_dispatch,
  settle_session, approver,
}
use strongclaw.Acp.Worker.Gate.{dispatch_waits, redispatch_raises}
use strongclaw.Acp.Worker.Settled.{Settled, settle_session-Settled}
use strongclaw.Tests.Fixtures.{row}
use strongclaw.Tests.OrchestrationTests.{hex, host, task}

-- A ready backend whose sessions succeed, and no other process.
abbrev worker : Worker
worker = record {
  host = host;
  which = λ name. true;
  backend = record {
    name = "codex";
    agent_name = "codex";
    supported_auth_modes = "subscription" ∷ [];
    supported_permission_modes = "approve-reads" ∷ [];
    default_permission_mode = "approve-reads";
    supported_output_formats = "text" ∷ [];
  };
  credentials = record { auth_mode = "subscription"; state = "ready"; message = "logged in" };
  acpx = λ command j. (
    finished (record {
      returncode = some (pos 0);
      stderr = "";
      timed_out = false;
      failed_to_start = false;
    }),
    j,
  );
  locked = λ path. false;
  error_text = λ e. "conflict";
  started = "20260101T000000Z";
}

abbrev step : DispatchStep
step = record {
  name = "dispatch";
  approved_by = null;
  approval_note = null;
  state_dir = "/state";
  dry_run = false;
}

abbrev spec : SessionSpec
spec = session_spec task step

abbrev session : String
session = "codex:my-repo-0123456789ab:git_clone-0123456789ab:default:qa"

abbrev lock : String
lock = "my-repo-0123456789ab:git_clone-0123456789ab:default:qa:worker_dispatch"

abbrev nothing : Journal
nothing = record { ops = []; leases = [] }

session_known : spec_session_identity spec ≡ ok session
unfolding session_spec spec_session_identity build_session_identity validate_token fullmatch strip
    every is_token_char
session_known = refl

lock_known : spec_lock_identity spec ≡ ok lock
unfolding session_spec spec_lock_identity build_lock_identity validate_token fullmatch strip every
    is_token_char
lock_known = refl

-- The session of the task runs once, and releases its lease.
session_runs : (run_session hex worker 1 2 spec nothing).runs ≡ 1
unfolding run_session session_spec spec_session_identity spec_lock_identity build_session_identity
    build_lock_identity validate_token fullmatch strip every is_token_char preflight_errors
    project_contains resolved within_any_root acquire_lease release_lease find_lease new_lease
    lease_request find_unreleased expire_all insert_lease lease_id_at take_text release_all
session_runs = refl

run_session-Granted_example : Granted hex worker 1 spec nothing
run_session-Granted_example = run_session-Granted hex worker 1 2 spec nothing session_runs

abbrev finished_summary : SessionSummary
finished_summary = record {
  ok = true;
  status = "succeeded";
  message = "acpx session completed successfully";
  returncode = some (pos 0);
  lease_id = some "0123456789abcdef";
  summary_path = session_summary_path worker.started spec;
}

-- The lease that the task's session is given.
abbrev own_lease : SessionLease
own_lease = new_lease hex 1 (lease_request hex worker spec session lock)

abbrev leased : Journal
leased = record { ops = []; leases = own_lease ∷ [] }

lease_granted :
    acquire_lease hex 1 (lease_request hex worker spec session lock) nothing
    ≡ ok (own_lease, leased)
unfolding session_spec spec_session_identity spec_lock_identity build_session_identity
    build_lock_identity validate_token fullmatch strip every is_token_char preflight_errors
    project_contains resolved within_any_root acquire_lease find_lease new_lease lease_request
    find_unreleased expire_all insert_lease lease_id_at take_text
lease_granted = refl

spec_passes :
    preflight_errors hex worker.host worker.which spec worker.backend worker.credentials ≡ []
unfolding session_spec spec_session_identity spec_lock_identity build_session_identity
    build_lock_identity validate_token fullmatch strip every is_token_char preflight_errors
    project_contains resolved within_any_root acquire_lease find_lease new_lease lease_request
    find_unreleased expire_all insert_lease lease_id_at take_text
spec_passes = refl

abbrev granted : Granted hex worker 1 spec nothing
granted = record {
  session = session;
  lock = lock;
  lease = (own_lease, leased);
  named = session_known;
  locks = lock_known;
  checked = spec_passes;
  free = refl;
  acquired = lease_granted;
}

own_lease_kept : find_lease own_lease.lease_id leased.leases ≡ some own_lease
unfolding find_lease new_lease lease_request session_spec lease_id_at take_text
own_lease_kept = refl

abbrev acpx_result : AcpxResult
acpx_result = record {
  returncode = some (pos 0);
  stderr = "";
  timed_out = false;
  failed_to_start = false;
}

run_session_finishes_example :
    ((run_session hex worker 1 2 spec nothing).returned
      ≡ ok
          (conclude (session_summary_path worker.started spec) spec own_lease.lease_id acpx_result))
    × IsReleased 2 own_lease.lease_id (run_session hex worker 1 2 spec nothing).journal
run_session_finishes_example =
    run_session_finishes hex worker 1 2 spec nothing granted acpx_result leased own_lease refl
      own_lease_kept

abbrev own_summary : SessionSummary
own_summary =
    conclude (session_summary_path worker.started spec) spec own_lease.lease_id acpx_result

names_lease : own_summary.lease_id ≡ some own_lease.lease_id
unfolding conclude
names_lease = refl

run_session-IsReleased_example :
    IsReleased 2 own_lease.lease_id (run_session hex worker 1 2 spec nothing).journal
run_session-IsReleased_example =
    run_session-IsReleased hex worker 1 2 spec nothing own_summary own_lease.lease_id
      (run_session_finishes hex worker 1 2 spec nothing granted acpx_result leased own_lease refl
        own_lease_kept).0
      names_lease

-- The lease of another session of the same lock.
abbrev holder : SessionLease
holder = new_lease hex 1 (lease_request hex worker spec "other" lock)

abbrev held : Journal
held = record { ops = []; leases = holder ∷ [] }

held_now : find_holder 5 lock held.leases ≡ some holder
unfolding find_holder new_lease lease_request session_spec
held_now = refl

spec_ttl : 0 < spec.ttl_seconds
unfolding session_spec
spec_ttl = omega arith

run_session-Refused_example : Refused held (run_session hex worker 5 6 spec held)
run_session-Refused_example =
    run_session-Refused hex worker 5 6 spec session lock held holder session_known lock_known
      spec_ttl held_now

abbrev office : Office
office = record {
  context = λ request. ok tt;
  desk = record {
    resolve = λ path. path;
    default_path = λ id. "/reviews";
    write = λ path op. none;
    error_text = λ e. "error";
  };
  clock = λ n. n;
}

abbrev guarded_task : OrchestrationTask
guarded_task = record task { approval_required = true }

nobody : approver step.approved_by ≡ none
unfolding approver
nobody = refl

dispatch_waits_example : (worker_dispatch hex worker office guarded_task step nothing).runs ≡ 0
dispatch_waits_example = dispatch_waits hex worker office guarded_task step refl nobody nothing

-- An operation of the task that a reviewer has approved meanwhile.
abbrev approved_row : Operation
approved_row = record (row "a" "approved" 1) {
  scope = session;
  idempotency_key = "0123456789abcdef";
}

abbrev approved_journal : Journal
approved_journal = record { ops = approved_row ∷ []; leases = [] }

guarded_session : session_identity guarded_task ≡ ok session
unfolding session_identity build_session_identity validate_token fullmatch strip every is_token_char
guarded_session = refl

no_context : prepare_context hex worker office guarded_task step none ≡ ok tt
unfolding prepare_context
no_context = refl

approved_known :
    find_key session
      (idempotency_key hex (task_request hex worker office guarded_task step session))
      approved_journal.ops
    ≡ some approved_row
unfolding find_key idempotency_key
approved_known = refl

approved_found : find_op "a" approved_journal.ops ≡ some approved_row
unfolding find_op
approved_found = refl

approved_refused :
    is_allowed (targets allowed_transitions approved_row.status) "pending_approval" ≡ false
unfolding is_allowed targets
approved_refused = refl

redispatch_raises_example :
    worker_dispatch hex worker office guarded_task step approved_journal
    ≡ stopped (err (invalid_transition "approved" "pending_approval")) approved_journal
redispatch_raises_example =
    redispatch_raises hex worker office step session approved_journal approved_row guarded_task refl
      guarded_session no_context approved_known approved_found refl approved_refused

abbrev running_row : Operation
running_row = record approved_row { status = "running" }

abbrev running_journal : Journal
running_journal = record { ops = running_row ∷ []; leases = [] }

running_found : find_op "a" running_journal.ops ≡ some running_row
unfolding find_op
running_found = refl

settle_session-Settled_example :
    Settled hex worker office task step running_row finished_summary (
      settle_session hex worker office task step running_row 1 running_journal
        (ok finished_summary))
settle_session-Settled_example =
    settle_session-Settled hex worker office task step running_row running_row 1 running_journal
      finished_summary running_found refl
