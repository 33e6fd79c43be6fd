-- ===== src/Journal/History/Calls.antt =====
-- Any sequence of calls of `OperationJournal` (src/clawops/op_journal.py): what becomes of a row.
use strongclaw.Prelude.{ℕ, String, ◌≡◌, refl, Option, List, [], ◌∷◌}
use strongclaw.Value.{Fields}
use strongclaw.Runtime.{Runtime}
use strongclaw.Result.{Result, ok, err}
use strongclaw.Journal.Rows.{Operation, Journal}
use strongclaw.Journal.Begin.{Request, begin}
use strongclaw.Journal.Transition.{Changes, transition}
use strongclaw.Journal.Review
use strongclaw.Journal.Lease.{LeaseRequest, acquire_lease, release_lease}
use strongclaw.Journal.Lease.Exclusive.{acquire_lease-inv, release_lease-inv}
use strongclaw.Journal.History.{OpsStep, same, History, here, then}
use strongclaw.Journal.History.Refines.{
  transition-OpsStep, approve-OpsStep, reject-OpsStep, delegate-OpsStep, ingest_review-OpsStep,
  begin-OpsStep,
}

-- The calls that write, each with the time at which it is made.
pub data Call : Type 0 where
  begin_call : ℕ → Request → Call
  transition_call : ℕ → String → String → Changes → Call
  approve_call reject_call :
      ℕ → String → String → Option String → Option String → Option Fields → Call
  delegate_call ingest_call :
      ℕ → String → String → String → Option String → Option String → Option Fields → Call
  acquire_call : ℕ → LeaseRequest → Call
  release_call : ℕ → String → String → Call

-- A call that raises leaves the journal as it was.
abbrev pub settle : {A : Type 0} → Result (A × Journal) → Journal → Journal
settle (ok r) j = r.1
settle (err e) j = j

module _ (rt : Runtime) where
  unfoldable pub run_call : Call → Journal → Journal
  run_call (begin_call now q) j = settle (begin rt now q j) j
  run_call (transition_call now id status c) j = settle (transition now id status c j) j
  run_call (approve_call now id by note path payload) j =
      settle (Review.approve rt now id by note path payload j) j
  run_call (reject_call now id by note path payload) j =
      settle (Review.reject rt now id by note path payload j) j
  run_call (delegate_call now id by delegate_to note path payload) j =
      settle (Review.delegate rt now id by delegate_to note path payload j) j
  run_call (ingest_call now id by decision note path payload) j =
      settle (Review.ingest_review rt now id by decision note path payload j) j
  run_call (acquire_call now q) j = settle (acquire_lease rt now q j) j
  run_call (release_call now id by) j = settle (release_lease now id by j) j

  unfoldable pub run_calls : List Call → Journal → Journal
  unfolding run_call
  run_calls [] j = j
  run_calls (c ∷ cs) j = run_calls cs (run_call c j)

settle-OpsStep :
    {A : Type 0} (m : Result (A × Journal)) (j : Journal)
    → ((r : A × Journal) → m ≡ ok r → OpsStep j.ops r.1.ops)
    → OpsStep j.ops (settle m j).ops
settle-OpsStep (ok r) j h = h r refl
settle-OpsStep (err e) j h = same

no_step : (os ps : List Operation) → ps ≡ os → OpsStep os ps
no_step os ps e = rw e same

module _ (rt : Runtime) where
  run_call-OpsStep : (c : Call) (j : Journal) → OpsStep j.ops (run_call rt c j).ops
  unfolding run_call
  run_call-OpsStep (begin_call now q) j = settle-OpsStep _ j (begin-OpsStep rt now q j)
  run_call-OpsStep (transition_call now id status c) j =
      settle-OpsStep _ j (transition-OpsStep now id status c j)
  run_call-OpsStep (approve_call now id by note path payload) j =
      settle-OpsStep _ j (approve-OpsStep rt now id by note path payload j)
  run_call-OpsStep (reject_call now id by note path payload) j =
      settle-OpsStep _ j (reject-OpsStep rt now id by note path payload j)
  run_call-OpsStep (delegate_call now id by to note path payload) j =
      settle-OpsStep _ j (delegate-OpsStep rt now id by note path payload to j)
  run_call-OpsStep (ingest_call now id by decision note path payload) j =
      settle-OpsStep _ j (ingest_review-OpsStep rt now id by note path payload decision j)
  run_call-OpsStep (acquire_call now q) j =
      settle-OpsStep _ j (λ r h. no_step j.ops r.1.ops (acquire_lease-inv rt now q j r h).5)
  run_call-OpsStep (release_call now id by) j =
      settle-OpsStep _ j (λ r h. no_step j.ops r.1.ops (release_lease-inv now id by j r h).1)

  extend :
      {os : List Operation} (cs : List Call) (j : Journal)
      → History os j.ops
      → History os (run_calls rt cs j).ops
  unfolding run_calls
  extend [] j past = past
  extend (c ∷ cs) j past = extend cs (run_call rt c j) (then past (run_call-OpsStep c j))

  -- Every sequence of calls is a sequence of steps of the relation.
  pub run_calls-History : (cs : List Call) (j : Journal) → History j.ops (run_calls rt cs j).ops
  run_calls-History cs j = extend cs j here
