-- ===== src/Journal/Review/Gate.antt =====
-- Which operations the review calls of src/clawops/op_journal.py let through.
use strongclaw.Prelude.{
  ℕ, ◌<◌, String, ◌≡◌, refl, sym, ◌∙◌, true, false, ◌&&◌, not, Option, none, some, ◌⊎◌, arith, ◌==◌,
  eq_iff,
}
use strongclaw.Value.{str, Fields, end}
use strongclaw.Value.Access.{put, update}
use strongclaw.Runtime.{Runtime}
use strongclaw.Result.{ok, err, not_pending_approval, >>=-eq-ok, require-eq-ok, ok-injective}
use strongclaw.Journal.Rows.{Operation, Journal}
use strongclaw.Journal.Status.{validate_transition}
use strongclaw.Journal.Status.Edges.{Edge-validate, allow, refuse}
use strongclaw.Journal.Tables.{find_op, update_op, get_op}
use strongclaw.Journal.Tables.Laws.{write_op_lem, find_op-update}
use strongclaw.Journal.Transition.{is_set}
use strongclaw.Journal.Review.{
  or_empty, encode_payload, merge_review_payload, approve, approve_row, reject, reject_row,
  ingest_review, ingest_row,
}

passes_gate :
    (n : ℕ) (s : String)
    → not (is_set n && not (s == "pending_approval")) ≡ true
    → (n ≡ 0) ⊎ (s ≡ "pending_approval")
passes_gate n s h = ground (arith, eq_iff s "pending_approval")

stops_at_gate :
    (n : ℕ) (s : String)
    → 0 < n
    → (s == "pending_approval") ≡ false
    → not (is_set n && not (s == "pending_approval")) ≡ false
stops_at_gate n s h e = ground arith

module _ (rt : Runtime) (now : ℕ) (id by : String) (note path : Option String)
    (payload : Option Fields) (j : Journal) (o : Operation) where
  -- `approve` lets an operation through only if it needs no approval or is pending approval, and
  -- what it lets through is approved, by the one who approves it and at that time.
  pub approve_gate :
      (r : Operation × Journal)
      → find_op id j.ops ≡ some o
      → approve rt now id by note path payload j ≡ ok r
      → ((o.approval_required ≡ 0) ⊎ (o.status ≡ "pending_approval"))
        × (r.0.status ≡ "approved")
        × (r.0.approved_by ≡ some by)
        × (r.0.approved_at_ms ≡ some now)
        × (find_op id r.1.ops ≡ some r.0)
  unfolding approve get_op
  approve_gate r found h =
      let (gate, h₁) =
        require-eq-ok (not (is_set o.approval_required && not (o.status == "pending_approval")))
          (not_pending_approval o.status) _ (rw found at h) in
      let (v, valid, h₂) = >>=-eq-ok (validate_transition o.status "approved") _ h₁ in
      let (m, merged, h₃) =
        >>=-eq-ok (merge_review_payload rt o.review_payload_json payload) _ h₂ in
      let row = approve_row rt now by note path m in
      let wrote = write_op_lem id row (unfold approve_row in λ p. refl) j o found in
      let same : (row o, record j { ops = update_op id row j.ops }) ≡ r =
        ok-injective (sym wrote ∙ h₃) in
      rw (← same) (
        passes_gate o.approval_required o.status gate,
        unfold approve_row in refl,
        unfold approve_row in refl,
        unfold approve_row in refl,
        find_op-update id row (unfold approve_row in λ p. refl) j.ops o found,
      )

  -- A proposed operation that requires approval: `approve` refuses it, but `ingest_review` with the
  -- decision "allow" approves it, and `reject` rejects it, though none has queued it for review.
  pub unqueued_review :
      find_op id j.ops ≡ some o
      → o.status ≡ "proposed"
      → 0 < o.approval_required
      → o.review_payload_json ≡ none
      → (approve rt now id by note path payload j ≡ err (not_pending_approval "proposed"))
        × ((r : Operation × Journal) × (ingest_review rt now id by "allow" note path payload j
              ≡ ok r)
            × (r.0.status ≡ "approved"))
        × ((r : Operation × Journal) × (reject rt now id by note path payload j ≡ ok r)
            × (r.0.status ≡ "rejected"))
  unfolding approve ingest_review reject get_op merge_review_payload ingest_row reject_row
  unqueued_review found fresh needs no_payload =
      let stopped = stops_at_gate o.approval_required "proposed" needs refl in
      let merged =
        encode_payload rt
          (update end (or_empty (some (put "review_decision" (str "allow") (or_empty payload))))) in
      let plain = encode_payload rt (update end (or_empty payload)) in
      let allowed = ingest_row rt now true by note path merged in
      let refused = reject_row rt now by note path plain in
      (
        rw (found, fresh, stopped) refl,
        (
          (allowed o, record j { ops = update_op id allowed j.ops }),
          rw (found, fresh, Edge-validate "proposed" "approved" allow, no_payload)
              (write_op_lem id allowed (unfold ingest_row in λ p. refl) j o found),
          unfold ingest_row in refl,
        ),
        (
          (refused o, record j { ops = update_op id refused j.ops }),
          rw (found, fresh, Edge-validate "proposed" "rejected" refuse, no_payload)
              (write_op_lem id refused (unfold reject_row in λ p. refl) j o found),
          unfold reject_row in refl,
        ),
      )
