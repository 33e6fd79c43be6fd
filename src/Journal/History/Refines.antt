-- ===== src/Journal/History/Refines.antt =====
-- Each call of src/clawops/op_journal.py that succeeds takes a step of the relation.
use strongclaw.Prelude.{
  ℕ, String, ◌≡◌, refl, sym, ap, ◌∙◌, Bool, true, false, ◌&&◌, ◌||◌, not, Option, none, some, inl,
  inr, arith, ◌==◌, Option-cases, if◌then◌else◌,
}
use strongclaw.Value.{str, Fields}
use strongclaw.Value.Access.{put}
use strongclaw.Runtime.{Runtime}
use strongclaw.Result.{
  ok, >>=-eq-ok, require-eq-ok, not_pending_approval, not_delegable, bad_review_decision,
}
use strongclaw.Journal.Rows.{Operation, Journal}
use strongclaw.Journal.Status.{validate_transition}
use strongclaw.Journal.Status.Edges.{validate-Edge}
use strongclaw.Journal.Tables.{find_op, find_key, insert_op, get_op, update_op, read_back, write_op}
use strongclaw.Journal.Tables.Laws.{identity, write_op_lem, insert_op-inv}
use strongclaw.Journal.Begin.{Request, idempotency_key, new_row, create, begin}
use strongclaw.Journal.Transition.{is_set, Changes, transition, transition_row, attempt_increment}
use strongclaw.Journal.Review.{
  approve, approve_row, reject, reject_row, delegate, delegate_row, ingest_review, ingest_row,
  merge_review_payload, or_empty,
}
use strongclaw.Journal.History.{RowStep, OpsStep, same, added, changed}

pub get_op-found :
    (id : String) (j : Journal) (o : Operation) → get_op id j ≡ ok o → find_op id j.ops ≡ some o
unfolding get_op
get_op-found id j o h = elim (Option-cases (find_op id j.ops)) [
  | inl e ↦ absurd (cc (rw e at h))
  | inr (p, e) ↦ (let q : ok p ≡ ok o = rw e at h in let r : p ≡ o = cc in e ∙ ap some r)
]

-- A call that found its row and wrote it by `f`.
module _ (id : String) (f : Operation → Operation) (j : Journal) (o : Operation)
    (keeps : (p : Operation) → identity (f p) ≡ identity p) (found : get_op id j ≡ ok o)
    (moves : RowStep o (f o)) where
  pub write-OpsStep : (r : Operation × Journal) → write_op id f j ≡ ok r → OpsStep j.ops r.1.ops
  write-OpsStep r h =
      let seen = get_op-found id j o found in
      let wrote = write_op_lem id f keeps j o seen in
      let same_pair : r ≡ (f o, record j { ops = update_op id f j.ops }) = cc in
      rw (ap (λ (t : Operation × Journal). t.1.ops) same_pair) (changed id f o seen keeps moves)

-- A status that passed the check, kept or moved to something other than `running`.
review-RowStep :
    (o p : Operation)
    → identity p ≡ identity o
    → p.created_at_ms ≡ o.created_at_ms
    → p.attempt ≡ o.attempt
    → (p.status == "running") ≡ false
    → validate_transition o.status p.status ≡ ok tt
    → RowStep o p
unfolding attempt_increment
review-RowStep o p same_id same_time same_attempt quiet valid = record {
  same_identity = same_id;
  same_creation = same_time;
  along = validate-Edge o.status p.status valid;
  attempts = rw quiet (omega arith);
}

-- No move: the status and the attempts stay.
kept :
    (o p : Operation)
    → identity p ≡ identity o
    → p.created_at_ms ≡ o.created_at_ms
    → p.attempt ≡ o.attempt
    → p.status ≡ o.status
    → RowStep o p
unfolding attempt_increment
kept o p same_id same_time same_attempt same_status = record {
  same_identity = same_id;
  same_creation = same_time;
  along = inl (sym same_status);
  attempts = rw same_status (ground arith);
}

decided_quiet : (b : Bool) → ((if b then "approved" else "rejected") == "running") ≡ false
decided_quiet true = refl
decided_quiet false = refl

read_back-ops :
    (found : Option Operation) (j : Journal) (r : Operation × Journal)
    → read_back found j ≡ ok r
    → r.1.ops ≡ j.ops
unfolding read_back
read_back-ops none j r h = absurd (cc)
read_back-ops (some o) j r h =
    (let p : r ≡ (o, j) = cc in ap (λ (t : Operation × Journal). t.1.ops) p)

pub transition-OpsStep :
    (now : ℕ) (id status : String) (c : Changes) (j : Journal) (r : Operation × Journal)
    → transition now id status c j ≡ ok r
    → OpsStep j.ops r.1.ops
unfolding transition
transition-OpsStep now id status c j r h =
    let (o, found, h') = >>=-eq-ok (get_op id j) _ h in
    let (u, valid, h'') = >>=-eq-ok (validate_transition o.status status) _ h' in
    write-OpsStep id (transition_row now status c) j o (unfold transition_row in λ p. refl) found
      (unfold transition_row in
        record {
          same_identity = refl;
          same_creation = refl;
          along = validate-Edge o.status status valid;
          attempts = refl;
        })
      r h''

module _ (rt : Runtime) (now : ℕ) (id by : String) (note path : Option String)
    (payload : Option Fields) where
  pub approve-OpsStep :
      (j : Journal) (r : Operation × Journal)
      → approve rt now id by note path payload j ≡ ok r
      → OpsStep j.ops r.1.ops
  unfolding approve
  approve-OpsStep j r h =
      let (o, found, h₁) = >>=-eq-ok (get_op id j) _ h in
      let (gate, h₂) =
        require-eq-ok (not (is_set o.approval_required && not (o.status == "pending_approval")))
          (not_pending_approval o.status) _ h₁ in
      let (v, valid, h₃) = >>=-eq-ok (validate_transition o.status "approved") _ h₂ in
      let (m, merged, h₄) =
        >>=-eq-ok (merge_review_payload rt o.review_payload_json payload) _ h₃ in
      write-OpsStep id (approve_row rt now by note path m) j o (unfold approve_row in λ p. refl)
        found (unfold approve_row in review-RowStep o _ refl refl refl refl valid) r h₄

  pub reject-OpsStep :
      (j : Journal) (r : Operation × Journal)
      → reject rt now id by note path payload j ≡ ok r
      → OpsStep j.ops r.1.ops
  unfolding reject
  reject-OpsStep j r h =
      let (o, found, h₁) = >>=-eq-ok (get_op id j) _ h in
      let (v, valid, h₂) = >>=-eq-ok (validate_transition o.status "rejected") _ h₁ in
      let (m, merged, h₃) =
        >>=-eq-ok (merge_review_payload rt o.review_payload_json payload) _ h₂ in
      write-OpsStep id (reject_row rt now by note path m) j o (unfold reject_row in λ p. refl) found
        (unfold reject_row in review-RowStep o _ refl refl refl refl valid) r h₃

  pub delegate-OpsStep :
      (delegate_to : String) (j : Journal) (r : Operation × Journal)
      → delegate rt now id by delegate_to note path payload j ≡ ok r
      → OpsStep j.ops r.1.ops
  unfolding delegate
  delegate-OpsStep delegate_to j r h =
      let (o, found, h₁) = >>=-eq-ok (get_op id j) _ h in
      let (gate, h₂) =
        require-eq-ok (o.status == "pending_approval") (not_delegable o.status) _ h₁ in
      let (m, merged, h₃) =
        >>=-eq-ok
          (merge_review_payload rt o.review_payload_json
            (some (put "delegate_to" (str delegate_to) (or_empty payload))))
          _ h₂ in
      write-OpsStep id (delegate_row rt now by delegate_to note path m) j o
        (unfold delegate_row in λ p. refl) found
        (unfold delegate_row in kept o _ refl refl refl refl) r h₃

  pub ingest_review-OpsStep :
      (decision : String) (j : Journal) (r : Operation × Journal)
      → ingest_review rt now id by decision note path payload j ≡ ok r
      → OpsStep j.ops r.1.ops
  unfolding ingest_review
  ingest_review-OpsStep decision j r h =
      let (known, h₁) =
        require-eq-ok (decision == "allow" || decision == "deny") bad_review_decision _ h in
      let (o, found, h₂) = >>=-eq-ok (get_op id j) _ h₁ in
      let (v, valid, h₃) =
        >>=-eq-ok
          (validate_transition o.status (if decision == "allow" then "approved" else "rejected")) _
          h₂ in
      let (m, merged, h₄) =
        >>=-eq-ok
          (merge_review_payload rt o.review_payload_json
            (some (put "review_decision" (str decision) (or_empty payload))))
          _ h₃ in
      write-OpsStep id (ingest_row rt now (decision == "allow") by note path m) j o
        (unfold ingest_row in λ p. refl) found
        (unfold ingest_row in
          review-RowStep o _ refl refl refl (decided_quiet (decision == "allow")) valid)
        r h₄

module _ (rt : Runtime) where
  pub create-OpsStep :
      (o : Operation) (j : Journal) (r : Operation × Journal)
      → o.status ≡ "proposed"
      → o.attempt ≡ 0
      → create rt o j ≡ ok r
      → OpsStep j.ops r.1.ops
  unfolding create
  create-OpsStep o j r fresh never h =
      let (os, inserted, h₁) = >>=-eq-ok (insert_op o j.ops) _ h in
      let (no_id, no_key, grown) = insert_op-inv o j.ops os inserted in
      rw (read_back-ops (find_op o.op_id os) (record j { ops = os }) r h₁, grown)
        (added o no_id no_key fresh never)

  pub begin-OpsStep :
      (now : ℕ) (q : Request) (j : Journal) (r : Operation × Journal)
      → begin rt now q j ≡ ok r
      → OpsStep j.ops r.1.ops
  unfolding begin
  begin-OpsStep now q j r h = elim (Option-cases (find_key q.scope (idempotency_key rt q) j.ops)) [
    | inl e ↦
        create-OpsStep (new_row rt now q) j r (unfold new_row in refl) (unfold new_row in refl)
          (rw e at h)
    | inr (o, e) ↦
        (let h' : ok (o, j) ≡ ok r = rw e at h in
          let p : r ≡ (o, j) = cc in rw (ap (λ (t : Operation × Journal). t.1.ops) p) same)
  ]
