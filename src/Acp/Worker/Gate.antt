-- ===== src/Acp/Worker/Gate.antt =====
-- What `_worker_dispatch_step` of src/clawops/workflow_runner.py waits for, and what a second
-- dispatch of a task does.
use strongclaw.Prelude.{
  ℕ, String, Bool, true, false, ◌≡◌, refl, ap, ◌∙◌, Option, none, some, ◌==◌, if◌then◌else◌,
}
use strongclaw.Runtime.{Runtime}
use strongclaw.Result.{Result, ok, err, invalid_transition}
use strongclaw.Journal.Rows.{Operation, Journal}
use strongclaw.Journal.Status.{allowed_transitions, targets, is_allowed, validate_transition}
use strongclaw.Journal.Tables.{find_op, find_key, get_op, or_unknown}
use strongclaw.Journal.Begin.{Request, idempotency_key, deduplicate, begin}
use strongclaw.Journal.Transition.{Changes, transition}
use strongclaw.Wrapper.Session.{Session, settled, call, lift, after, ◌>>=◌, call-eq}
use strongclaw.Orchestration.Task.{OrchestrationTask, session_identity}
use strongclaw.Acp.Session.{Worker, Ran}
use strongclaw.Acp.Worker.{
  Next, halt, go, DispatchStep, approver, stopped, Office, task_request, decision_changes,
  awaiting_changes, approve_step, after_dispatch, await_approval, allow_step, approve_operation,
  open_operation, proceed, identified_step, prepare_context, prepared_step, worker_dispatch,
}

-- the step goes on to a session
abbrev goes : Result Next × Journal → Bool
goes (ok (go op), j) = true
goes (ok (halt r), j) = false
goes (err e, j) = false

after-goes :
    {A : Type 0} (rest : A → Session Next)
    → ((a : A) (j : Journal) → goes (rest a j) ≡ false)
    → (r : Result A × Journal) → goes (after rest r) ≡ false
unfolding after
after-goes rest stops (err e, j) = refl
after-goes rest stops (ok a, j) = stops a j

-- A chain stops if what comes after its first call does.
>>=-goes :
    {A : Type 0} (first : Session A) (rest : A → Session Next)
    → ((a : A) (j : Journal) → goes (rest a j) ≡ false)
    → (j : Journal) → goes ((first >>= rest) j) ≡ false
unfolding ◌>>=◌
>>=-goes first rest stops j = after-goes rest stops (first j)

if-runs :
    {A : Type 0} (test : Bool) (m n : Ran A)
    → m.runs ≡ 0
    → n.runs ≡ 0
    → (if test then m else n).runs ≡ 0
if-runs true m n hm hn = hm
if-runs false m n hm hn = hn

module _ (rt : Runtime) (w : Worker) (office : Office) (q : DispatchStep) where
  after_dispatch-goes :
      (t : OrchestrationTask) (op : Operation) (failed : Option String) (j : Journal)
      → approver q.approved_by ≡ none
      → goes (after_dispatch rt w office t q op failed j) ≡ false
  unfolding after_dispatch lift
  after_dispatch-goes t op (some e) j nobody = refl
  after_dispatch-goes t op none j nobody = rw (nobody, approve_step) refl

module _ (rt : Runtime) (w : Worker) (office : Office) (t : OrchestrationTask)
    (q : DispatchStep) where
  proceed-runs : (r : Result Next × Journal) → goes r ≡ false → (proceed rt w office t q r).runs ≡ 0
  unfolding proceed stopped
  proceed-runs (err e, j) h = refl
  proceed-runs (ok (halt r), j) h = refl
  proceed-runs (ok (go op), j) h = absurd (cc)

  open_operation-goes :
      (session : String)
      → t.approval_required ≡ true
      → approver q.approved_by ≡ none
      → (j : Journal) → goes (open_operation rt w office t q session j) ≡ false
  unfolding open_operation approve_operation await_approval after_dispatch approve_step lift
  open_operation-goes session required nobody j =
      >>=-goes (call (begin rt (office.clock 0) (task_request rt w office t q session))) _
        (λ op k. rw required (
          >>=-goes _ _
            (λ pending k.
              >>=-goes _ _
                (λ outcome k'.
                  after_dispatch-goes rt w office q (record t { approval_required = true }) op
                    outcome.error k' nobody)
                k)
            k))
        j

  identified-runs :
      (session : Result String)
      → t.approval_required ≡ true
      → approver q.approved_by ≡ none
      → (j : Journal) → (identified_step rt w office t q session j).runs ≡ 0
  unfolding identified_step stopped
  identified-runs (err e) required nobody j = refl
  identified-runs (ok session) required nobody j =
      proceed-runs (open_operation rt w office t q session j)
        (open_operation-goes session required nobody j)

  prepared_step-runs :
      (r : Result (Unit {0}))
      → t.approval_required ≡ true
      → approver q.approved_by ≡ none
      → (j : Journal) → (prepared_step rt w office t q r j).runs ≡ 0
  unfolding prepared_step stopped
  prepared_step-runs (err e) required nobody j = refl
  prepared_step-runs (ok done) required nobody j =
      identified-runs (session_identity t) required nobody j

  -- A task that needs an approval, in a step that names nobody who approves it, is never run: acpx
  -- is not called, whatever the journal holds.
  pub dispatch_waits :
      t.approval_required ≡ true
      → approver q.approved_by ≡ none
      → (j : Journal) → (worker_dispatch rt w office t q j).runs ≡ 0
  unfolding worker_dispatch stopped
  dispatch_waits required nobody j =
      if-runs q.dry_run _ _ refl
        (prepared_step-runs (prepare_context rt w office t q t.context_request) required nobody j)

if_false {ℓ} : {A : Type ℓ} (test : Bool) (m n : A) → test ≡ false → (if test then m else n) ≡ n
if_false true m n h = absurd (cc)
if_false false m n h = refl

begin_known :
    (rt : Runtime) (now : ℕ) (r : Request) (j : Journal) (row : Operation)
    → find_key r.scope (idempotency_key rt r) j.ops ≡ some row
    → begin rt now r j ≡ ok (row, j)
unfolding begin deduplicate
begin_known rt now r j row known = rw known refl

-- The status that a dispatch first moves its operation to.
abbrev pub first_status : OrchestrationTask → String
first_status t = if t.approval_required then "pending_approval" else "approved"

module _ (now : ℕ) (id status : String) (c : Changes) (j : Journal) (row : Operation) where
  transition-refused :
      find_op id j.ops ≡ some row
      → (row.status == status) ≡ false
      → is_allowed (targets allowed_transitions row.status) status ≡ false
      → transition now id status c j ≡ err (invalid_transition row.status status)
  unfolding transition get_op or_unknown validate_transition
  transition-refused found other refused = rw (found, other, refused) refl

module _ (rt : Runtime) (w : Worker) (office : Office) (q : DispatchStep) (session : String)
    (j : Journal) (row : Operation) where
  approval-refused :
      (t : OrchestrationTask) (required : Bool)
      → t.approval_required ≡ required
      → find_op row.op_id j.ops ≡ some row
      → (row.status == (if required then "pending_approval" else "approved")) ≡ false
      → is_allowed
          (targets allowed_transitions row.status)
          (if required then "pending_approval" else "approved")
        ≡ false
      → approve_operation rt w office t q row j ≡ (
        err (invalid_transition row.status (if required then "pending_approval" else "approved")),
        j,
      )
  unfolding approve_operation await_approval allow_step call settled after ◌>>=◌
  approval-refused t true e found other refused =
      rw
        (
          e,
          transition-refused (office.clock 1) row.op_id "pending_approval"
              (awaiting_changes rt w office _ q) j row found other refused,
        )
        refl
  approval-refused t false e found other refused =
      rw
        (
          e,
          transition-refused (office.clock 1) row.op_id "approved"
              (decision_changes rt w office _ q "allow") j row found other refused,
        )
        refl

  -- A dispatch that is repeated, where the operation of the task has a status with no way to the
  -- first status of a dispatch, raises the error of that transition, does not call acpx, and leaves
  -- the journal as it was.
  pub redispatch_raises :
      (t : OrchestrationTask)
      → q.dry_run ≡ false
      → session_identity t ≡ ok session
      → prepare_context rt w office t q t.context_request ≡ ok tt
      → find_key session (idempotency_key rt (task_request rt w office t q session)) j.ops
        ≡ some row
      → find_op row.op_id j.ops ≡ some row
      → (row.status == first_status t) ≡ false
      → is_allowed (targets allowed_transitions row.status) (first_status t) ≡ false
      → worker_dispatch rt w office t q j
        ≡ stopped (err (invalid_transition row.status (first_status t))) j
  unfolding worker_dispatch prepared_step identified_step open_operation proceed stopped
  redispatch_raises t real es prepared_ok known found other refused =
      if_false q.dry_run _ _ real
      ∙ ap (λ (r : Result (Unit {0})). prepared_step rt w office t q r j) prepared_ok
      ∙ ap (λ (r : Result String). identified_step rt w office t q r j) es
      ∙ ap (proceed rt w office t q) (
          call-eq (begin rt (office.clock 0) (task_request rt w office t q session))
            (approve_operation rt w office t q) j (begin_known rt (office.clock 0) _ j row known)
          ∙ approval-refused t t.approval_required refl found other refused)
