-- ===== src/Tests/JournalTests.antt =====
-- The journal's theorems (src/clawops/op_journal.py) at concrete journals and calls.
use strongclaw.Prelude.{
  ◌-◌, map, ℕ, ◌≤◌, String, ◌≡◌, refl, true, none, some, List, [], ◌∷◌, ◌⊎◌, arith, contains,
}
use strongclaw.Prelude.Text.{take_text, show_nat}
use strongclaw.Value.Access.{update}
use strongclaw.Result.{ok, err, lease_conflict, not_pending_approval}
use strongclaw.Journal.Rows.{Operation, Journal, empty_journal}
use strongclaw.Journal.Status.{validate_transition}
use strongclaw.Journal.Status.Edges.{Edge}
use strongclaw.Journal.Tables.{find_op, find_key, get_op, update_op, write_op, insert_op}
use strongclaw.Journal.Begin.{begin, op_id_at, new_row}
use strongclaw.Journal.Begin.Idempotent.{begin_again, begin_new}
use strongclaw.Journal.Transition.{no_changes, transition, transition_row}
use strongclaw.Journal.Transition.Exact.{transition_exact}
use strongclaw.Journal.Queries.{select_rows, place_row, sort_rows, by_update, is_stuck, list_stuck}
use strongclaw.Journal.Queries.Ordered.{IsAnswer, moves_since, list_stuck-IsAnswer}
use strongclaw.Journal.Review.{merge_review_payload, approve_row, approve, reject, ingest_review}
use strongclaw.Journal.Review.Gate.{approve_gate, unqueued_review}
use strongclaw.Journal.Lease.{
  acquire_lease, release_lease, release_row, release_all, lease_id_at, new_lease, expire_all,
  find_lease, find_unreleased, insert_lease,
}
use strongclaw.Journal.Lease.Exclusive.{count_unreleased}
use strongclaw.Journal.Lease.Protocol.{
  find_holder, acquire_lease-free, acquire_lease-excludes, release_lease-frees,
}
use strongclaw.Journal.History.Calls.{Call, begin_call, transition_call, acquire_call, run_calls}
use strongclaw.Journal.History.Fate.{operation_persists, terminal_is_final, Descends}
use strongclaw.Journal.History.Lifecycle.{runs_at_most_once}
use strongclaw.Journal.History.Locks.{one_lease_per_lock}
use strongclaw.Tests.Fixtures.{toy, comment, comment_again, row, one_row, lease_for}

abbrev script : List Call
script =
    begin_call 7 comment
    ∷ transition_call 8 "github:comment:repo#1:7" "approved" no_changes
    ∷ transition_call 9 "github:comment:repo#1:7" "running" no_changes
    ∷ []

script_runs :
    find_op "github:comment:repo#1:7" (run_calls toy script empty_journal).ops
    ≡ some (
        transition_row 9 "running" no_changes
          (transition_row 8 "approved" no_changes (new_row toy 7 comment)))
unfolding run_calls begin transition find_op find_key insert_op get_op write_op validate_transition
    transition_row new_row update_op op_id_at take_text show_nat
script_runs = refl

runs_at_most_once_example :
    let o =
      transition_row 9 "running" no_changes
        (transition_row 8 "approved" no_changes (new_row toy 7 comment)) in
    (o.attempt ≤ 1)
    × (contains ("running" ∷ "succeeded" ∷ []) o.status ≡ true → o.attempt ≡ 1)
    × (contains ("proposed" ∷ "pending_approval" ∷ "approved" ∷ "rejected" ∷ []) o.status ≡ true
        → o.attempt ≡ 0)
runs_at_most_once_example = runs_at_most_once toy script "github:comment:repo#1:7" _ script_runs

one_lease_per_lock_example :
    count_unreleased "lock"
      (run_calls toy
        (acquire_call 5 (lease_for "s" 2) ∷ acquire_call 6 (lease_for "t" 2) ∷ [])
        empty_journal).leases
    ≤ 1
one_lease_per_lock_example =
    one_lease_per_lock toy
      (acquire_call 5 (lease_for "s" 2) ∷ acquire_call 6 (lease_for "t" 2) ∷ []) "lock"

operation_persists_example :
    (p : Operation) × (find_op "a" (run_calls toy script (one_row "approved" 0)).ops ≡ some p)
    × Descends (row "a" "approved" 0) p
operation_persists_example =
    operation_persists toy script (one_row "approved" 0) "a" (row "a" "approved" 0)
      (unfold find_op in refl)

terminal_is_final_example :
    (p : Operation) × (find_op "a" (run_calls toy script (one_row "failed" 0)).ops ≡ some p)
    × (p.status ≡ "failed")
terminal_is_final_example =
    terminal_is_final toy script (one_row "failed" 0) "a" (row "a" "failed" 0)
      (unfold find_op in refl) refl

begin_again_example :
    begin toy 9 comment_again (record empty_journal { ops = new_row toy 7 comment ∷ [] })
    ≡ ok (new_row toy 7 comment, record empty_journal { ops = new_row toy 7 comment ∷ [] })
begin_again_example =
    begin_again toy 7 9 comment comment_again empty_journal
      (new_row toy 7 comment, record empty_journal { ops = new_row toy 7 comment ∷ [] })
      (begin_new toy 7 comment empty_journal (unfold find_key in refl) (unfold find_op in refl))
      (record { same_scope = refl; same_kind = refl; same_target = refl; same_inputs = refl })

transition_exact_example :
    (◌≡◌ {A = String} "approved" "running" ⊎ Edge "approved" "running"
      → transition 9 "a" "running" no_changes (one_row "approved" 0)
        ≡ ok (
          transition_row 9 "running" no_changes (row "a" "approved" 0),
          record (one_row "approved" 0) {
            ops = update_op "a" (transition_row 9 "running" no_changes) (one_row "approved" 0).ops;
          },
        ))
    × ((r : Operation × Journal)
        → transition 9 "a" "running" no_changes (one_row "approved" 0) ≡ ok r
        → ◌≡◌ {A = String} "approved" "running" ⊎ Edge "approved" "running")
transition_exact_example =
    transition_exact 9 "a" "running" no_changes (one_row "approved" 0) (row "a" "approved" 0)
      (unfold find_op in refl)

abbrev approved_row : Operation
approved_row = approve_row toy 9 "ann" none none none (row "a" "pending_approval" 1)

approve_gate_example :
    (◌≡◌ {A = ℕ} 1 0 ⊎ ◌≡◌ {A = String} "pending_approval" "pending_approval")
    × (approved_row.status ≡ "approved")
    × (approved_row.approved_by ≡ some "ann")
    × (approved_row.approved_at_ms ≡ some 9)
    × (find_op "a" (approved_row ∷ []) ≡ some approved_row)
unfolding approve find_op get_op write_op validate_transition approve_row update_op
    merge_review_payload update
approve_gate_example =
    approve_gate toy 9 "a" "ann" none none none (one_row "pending_approval" 1)
      (row "a" "pending_approval" 1) (approved_row, record { ops = approved_row ∷ []; leases = [] })
      refl refl

unqueued_review_example :
    (approve toy 9 "a" "ann" none none none (one_row "proposed" 1)
      ≡ err (not_pending_approval "proposed"))
    × ((r : Operation × Journal) × (ingest_review toy 9 "a" "ann" "allow" none none none
            (one_row "proposed" 1)
          ≡ ok r)
        × (r.0.status ≡ "approved"))
    × ((r : Operation × Journal) × (reject toy 9 "a" "ann" none none none (one_row "proposed" 1)
          ≡ ok r)
        × (r.0.status ≡ "rejected"))
unqueued_review_example =
    unqueued_review toy 9 "a" "ann" none none none (one_row "proposed" 1) (row "a" "proposed" 1)
      (unfold find_op in refl) refl (omega arith) refl

abbrev leased : Journal
leased = record empty_journal { leases = new_lease toy 5 (lease_for "s" 2) ∷ [] }

leased_lem :
    acquire_lease toy 5 (lease_for "s" 2) empty_journal
    ≡ ok (new_lease toy 5 (lease_for "s" 2), leased)
leased_lem =
    unfold expire_all in
    acquire_lease-free toy 5 (lease_for "s" 2) empty_journal (omega arith)
      (unfold find_holder in refl) (unfold find_lease in refl)

leased_is_held : find_holder 6 "lock" leased.leases ≡ some (new_lease toy 5 (lease_for "s" 2))
unfolding find_holder new_lease
leased_is_held = refl

acquire_lease-excludes_example :
    acquire_lease toy 2004 (lease_for "t" 9) leased ≡ err (lease_conflict "lock" "lock:s:5")
unfolding take_text show_nat lease_id_at
acquire_lease-excludes_example =
    acquire_lease-excludes toy 5 2004 (lease_for "s" 2) (lease_for "t" 9) empty_journal
      (new_lease toy 5 (lease_for "s" 2), leased) leased_lem (omega arith) refl (omega arith)

release_lease-frees_example :
    find_holder 7 "lock" (release_row 6 "s" (new_lease toy 5 (lease_for "s" 2)) ∷ []) ≡ none
unfolding release_lease release_all find_lease new_lease lease_id_at take_text show_nat run_calls
    acquire_lease find_unreleased expire_all insert_lease
release_lease-frees_example =
    release_lease-frees 6 6 7 "lock" "s" leased (new_lease toy 5 (lease_for "s" 2))
      (
        release_row 6 "s" (new_lease toy 5 (lease_for "s" 2)),
        record leased { leases = release_row 6 "s" (new_lease toy 5 (lease_for "s" 2)) ∷ [] },
      )
      (λ lock. one_lease_per_lock toy (acquire_call 5 (lease_for "s" 2) ∷ []) lock) leased_is_held
      refl

-- Three operations, of which two are stuck.
abbrev stale : Journal
stale = record {
  ops =
      record (row "a" "running" 0) { updated_at_ms = 6 }
      ∷ record (row "b" "succeeded" 0) { updated_at_ms = 2 }
      ∷ record (row "c" "proposed" 0) { updated_at_ms = 3 }
      ∷ [];
  leases = [];
}

stuck_ids : map (λ (o : Operation). o.op_id) (list_stuck 9 2 stale) ≡ "c" ∷ "a" ∷ []
unfolding list_stuck is_stuck select_rows sort_rows place_row
stuck_ids = refl

list_stuck-IsAnswer_example :
    IsAnswer by_update (moves_since (9 - 2)) stale.ops (list_stuck 9 2 stale)
list_stuck-IsAnswer_example = list_stuck-IsAnswer 9 2 stale
