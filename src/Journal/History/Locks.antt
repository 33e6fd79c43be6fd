-- ===== src/Journal/History/Locks.antt =====
-- Over any sequence of calls of `OperationJournal` (src/clawops/op_journal.py) no lock has two
-- unreleased leases: the calls on operations leave the table of leases alone.
use strongclaw.Prelude.{
  ℕ, ◌≤◌, String, ◌≡◌, refl, sym, ap, Option, none, some, List, [], ◌∷◌, arith, Option-cases, inl,
  inr,
}
use strongclaw.Value.{Fields}
use strongclaw.Runtime.{Runtime}
use strongclaw.Result.{Result, ok, err, ◌>>=◌, ◌>>◌, ok-injective}
use strongclaw.Journal.Rows.{Operation, SessionLease, Journal, empty_journal}
use strongclaw.Journal.Tables.{find_op, find_key, read_back, insert_op, update_op, write_op}
use strongclaw.Journal.Begin.{Request, begin, create, new_row, idempotency_key}
use strongclaw.Journal.Transition.{Changes, transition}
use strongclaw.Journal.Review.{approve, reject, delegate, ingest_review}
use strongclaw.Journal.Lease.Exclusive.{
  IsExclusive, count_unreleased, acquire_lease-IsExclusive, release_lease-IsExclusive,
}
use strongclaw.Journal.History.Calls.{
  Call, begin_call, transition_call, approve_call, reject_call, delegate_call, ingest_call,
  acquire_call, release_call, settle, run_call, run_calls,
}

-- If the call succeeds, the leases are those of the journal that it was given.
record KeepsLeases (ls : List SessionLease) (m : Result (Operation × Journal)) : Type 0 where
  at : (r : Operation × Journal) → m ≡ ok r → r.1.leases ≡ ls

bind-KeepsLeases :
    {A : Type 0} (ls : List SessionLease) (m : Result A) (k : A → Result (Operation × Journal))
    → ((a : A) → KeepsLeases ls (k a))
    → KeepsLeases ls (m >>= k)
bind-KeepsLeases ls (ok a) k h = h a
bind-KeepsLeases ls (err e) k h = record { at = λ r p. absurd (cc) }

then-KeepsLeases :
    (ls : List SessionLease) (m : Result (Unit {0})) (k : Result (Operation × Journal))
    → KeepsLeases ls k
    → KeepsLeases ls (m >> k)
then-KeepsLeases ls (ok a) k h = h
then-KeepsLeases ls (err e) k h = record { at = λ r p. absurd (cc) }

ok-KeepsLeases : (o : Operation) (j : Journal) → KeepsLeases j.leases (ok (o, j))
ok-KeepsLeases o j = record {
  at = λ r p. ap (λ (t : Operation × Journal). t.1.leases) (sym (ok-injective p));
}

read_back-KeepsLeases : (o : Option Operation) (j : Journal) → KeepsLeases j.leases (read_back o j)
unfolding read_back
read_back-KeepsLeases none j = record { at = λ r p. absurd (cc) }
read_back-KeepsLeases (some o) j = ok-KeepsLeases o j

write_op-KeepsLeases :
    (id : String) (f : Operation → Operation) (j : Journal) → KeepsLeases j.leases (write_op id f j)
unfolding write_op
write_op-KeepsLeases id f j = read_back-KeepsLeases _ (record j { ops = update_op id f j.ops })

ruleset keeps_rules = (bind-KeepsLeases, then-KeepsLeases, write_op-KeepsLeases)

settle-IsExclusive :
    (m : Result (Operation × Journal)) (j : Journal)
    → KeepsLeases j.leases m
    → IsExclusive j
    → IsExclusive (settle m j)
settle-IsExclusive (ok r) j same one = λ lock. rw (same.at r refl) (one lock)
settle-IsExclusive (err e) j same one = one

settle-lease :
    (m : Result (SessionLease × Journal)) (j : Journal)
    → IsExclusive j
    → ((r : SessionLease × Journal) → m ≡ ok r → IsExclusive r.1)
    → IsExclusive (settle m j)
settle-lease (ok r) j one h = h r refl
settle-lease (err e) j one h = one

transition-KeepsLeases :
    (now : ℕ) (id status : String) (c : Changes) (j : Journal)
    → KeepsLeases j.leases (transition now id status c j)
unfolding transition
transition-KeepsLeases now id status c j = search keeps_rules

create-KeepsLeases :
    (rt : Runtime) (o : Operation) (j : Journal) → KeepsLeases j.leases (create rt o j)
unfolding create
create-KeepsLeases rt o j =
    bind-KeepsLeases j.leases (insert_op o j.ops) _
      λ os. read_back-KeepsLeases (find_op o.op_id os) (record j { ops = os })

begin-KeepsLeases :
    (rt : Runtime) (now : ℕ) (q : Request) (j : Journal) → KeepsLeases j.leases (begin rt now q j)
unfolding begin
begin-KeepsLeases rt now q j = elim (Option-cases (find_key q.scope (idempotency_key rt q) j.ops)) [
  | inl e ↦ rw e (create-KeepsLeases rt (new_row rt now q) j)
  | inr (o, e) ↦ rw e (ok-KeepsLeases o j)
]

module _ (rt : Runtime) (now : ℕ) (id by : String) (note path : Option String)
    (payload : Option Fields) (j : Journal) where
  approve-KeepsLeases : KeepsLeases j.leases (approve rt now id by note path payload j)
  unfolding approve
  approve-KeepsLeases = search keeps_rules

  reject-KeepsLeases : KeepsLeases j.leases (reject rt now id by note path payload j)
  unfolding reject
  reject-KeepsLeases = search keeps_rules

  delegate-KeepsLeases :
      (to : String) → KeepsLeases j.leases (delegate rt now id by to note path payload j)
  unfolding delegate
  delegate-KeepsLeases to = search keeps_rules

  ingest_review-KeepsLeases :
      (decision : String)
      → KeepsLeases j.leases (ingest_review rt now id by decision note path payload j)
  unfolding ingest_review
  ingest_review-KeepsLeases decision = search keeps_rules

module _ (rt : Runtime) where
  run_call-IsExclusive : (c : Call) (j : Journal) → IsExclusive j → IsExclusive (run_call rt c j)
  unfolding run_call
  run_call-IsExclusive (begin_call now q) j = settle-IsExclusive _ j (begin-KeepsLeases rt now q j)
  run_call-IsExclusive (transition_call now id status c) j =
      settle-IsExclusive _ j (transition-KeepsLeases now id status c j)
  run_call-IsExclusive (approve_call now id by note path payload) j =
      settle-IsExclusive _ j (approve-KeepsLeases rt now id by note path payload j)
  run_call-IsExclusive (reject_call now id by note path payload) j =
      settle-IsExclusive _ j (reject-KeepsLeases rt now id by note path payload j)
  run_call-IsExclusive (delegate_call now id by to note path payload) j =
      settle-IsExclusive _ j (delegate-KeepsLeases rt now id by note path payload j to)
  run_call-IsExclusive (ingest_call now id by decision note path payload) j =
      settle-IsExclusive _ j (ingest_review-KeepsLeases rt now id by note path payload j decision)
  run_call-IsExclusive (acquire_call now q) j =
      λ one. settle-lease _ j one (λ r. acquire_lease-IsExclusive rt now q j r one)
  run_call-IsExclusive (release_call now id by) j =
      λ one. settle-lease _ j one (λ r. release_lease-IsExclusive now id by j r one)

  run_from-IsExclusive :
      (cs : List Call) (j : Journal) → IsExclusive j → IsExclusive (run_calls rt cs j)
  unfolding run_calls
  run_from-IsExclusive [] j one = one
  run_from-IsExclusive (c ∷ cs) j one =
      run_from-IsExclusive cs (run_call rt c j) (run_call-IsExclusive c j one)

-- After any sequence of calls on an empty journal, each lock has at most one unreleased lease.
pub one_lease_per_lock :
    (rt : Runtime) (cs : List Call) (lock : String)
    → count_unreleased lock (run_calls rt cs empty_journal).leases ≤ 1
one_lease_per_lock rt cs =
    run_from-IsExclusive rt cs empty_journal (λ lock. unfold count_unreleased in omega arith)
