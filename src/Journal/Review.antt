-- ===== src/Journal/Review.antt =====
-- The review calls of src/clawops/op_journal.py: approve, reject, delegate, ingest_review, and the
-- merging of review payloads.
pub mod Gate
use strongclaw.Prelude.{
  ℕ, String, Bool, true, false, ◌&&◌, ◌||◌, not, Option, none, some, ◌==◌, if◌then◌else◌,
}
use strongclaw.Prelude.Text.{strip, is_nonempty}
use strongclaw.Value.{Value, str, obj, Fields, end, field}
use strongclaw.Value.Access.{put, update}
use strongclaw.Runtime.{Runtime}
use strongclaw.Result.{
  Result, ok, err, bad_json, not_a_mapping, not_pending_approval, not_delegable,
  bad_review_decision, require, ◌>>=◌, ◌>>◌,
}
use strongclaw.Journal.Rows.{Operation, Journal}
use strongclaw.Journal.Status.{validate_transition}
use strongclaw.Journal.Tables.{get_op, write_op}
use strongclaw.Journal.Transition.{is_set}

-- value or default
unfoldable pub or_default : Option String → String → String
or_default none d = d
or_default (some s) d = if is_nonempty s then s else d

-- dict(as_mapping(json.loads(...)))
unfoldable pub as_fields : Option Value → Result Fields
as_fields none = err bad_json
as_fields (some (obj fs)) = ok fs
as_fields (some v) = err not_a_mapping

-- payload or {}
unfoldable pub or_empty : Option Fields → Fields
or_empty none = end
or_empty (some fs) = fs

module _ (rt : Runtime) where
  unfoldable pub load_json_mapping : Option String → Result Fields
  unfolding as_fields
  load_json_mapping none = ok end
  load_json_mapping (some raw) = if strip raw == "" then ok end else as_fields (rt.loads raw)

  -- None if not payload else canonical_json(payload)
  unfoldable pub encode_payload : Fields → Option String
  encode_payload end = none
  encode_payload (field k v fs) = some (rt.canonical_json (obj (field k v fs)))

  unfoldable pub merge_review_payload : Option String → Option Fields → Result (Option String)
  unfolding load_json_mapping encode_payload or_empty
  merge_review_payload existing updates = do
    payload ← load_json_mapping existing
    ok (encode_payload (update payload (or_empty updates)))

  unfoldable pub approve_row :
      ℕ → String → Option String → Option String → Option String → Operation → Operation
  unfolding or_default
  approve_row now approved_by note path merged row = record row {
    updated_at_ms = now;
    status = "approved";
    approved_by = some approved_by;
    approved_at_ms = some now;
    approval_note = note;
    last_error = none;
    review_mode = some (or_default row.review_mode "manual");
    review_status = some "approved";
    reviewed_by = some approved_by;
    reviewed_at_ms = some now;
    review_note = note;
    review_artifact_path = path;
    review_payload_json = merged;
  }

  unfoldable pub approve :
      ℕ
      → String
      → String
      → Option String
      → Option String
      → Option Fields
      → Journal
      → Result (Operation × Journal)
  approve now op_id approved_by note path payload j = do
    row ← get_op op_id j
    require (not (is_set row.approval_required && not (row.status == "pending_approval")))
        (not_pending_approval row.status)
    validate_transition row.status "approved"
    merged ← merge_review_payload row.review_payload_json payload
    write_op op_id (approve_row now approved_by note path merged) j

  unfoldable pub reject_row :
      ℕ → String → Option String → Option String → Option String → Operation → Operation
  unfolding or_default
  reject_row now reviewed_by note path merged row = record row {
    updated_at_ms = now;
    status = "rejected";
    last_error = some (or_default note "review rejected");
    review_mode = some (or_default row.review_mode "manual");
    review_status = some "rejected";
    reviewed_by = some reviewed_by;
    reviewed_at_ms = some now;
    review_note = note;
    review_artifact_path = path;
    review_payload_json = merged;
  }

  unfoldable pub reject :
      ℕ
      → String
      → String
      → Option String
      → Option String
      → Option Fields
      → Journal
      → Result (Operation × Journal)
  reject now op_id reviewed_by note path payload j = do
    row ← get_op op_id j
    validate_transition row.status "rejected"
    merged ← merge_review_payload row.review_payload_json payload
    write_op op_id (reject_row now reviewed_by note path merged) j

  unfoldable pub delegate_row :
      ℕ → String → String → Option String → Option String → Option String → Operation → Operation
  unfolding or_default
  delegate_row now reviewed_by delegate_to note path merged row = record row {
    updated_at_ms = now;
    review_mode = some (or_default row.review_mode "delegate_recommend");
    review_target = some delegate_to;
    review_status = some "delegated";
    reviewed_by = some reviewed_by;
    reviewed_at_ms = some now;
    review_note = note;
    review_artifact_path = path;
    review_payload_json = merged;
  }

  unfoldable pub delegate :
      ℕ
      → String
      → String
      → String
      → Option String
      → Option String
      → Option Fields
      → Journal
      → Result (Operation × Journal)
  unfolding or_empty
  delegate now op_id reviewed_by delegate_to note path payload j = do
    row ← get_op op_id j
    require (row.status == "pending_approval") (not_delegable row.status)
    merged ←
        merge_review_payload row.review_payload_json
          (some (put "delegate_to" (str delegate_to) (or_empty payload)))
    write_op op_id (delegate_row now reviewed_by delegate_to note path merged) j

  -- `allowed` is `decision == "allow"`
  unfoldable pub ingest_row :
      ℕ → Bool → String → Option String → Option String → Option String → Operation → Operation
  unfolding or_default
  ingest_row now allowed reviewed_by note path merged row = record row {
    updated_at_ms = now;
    status = if allowed then "approved" else "rejected";
    last_error = if allowed then none else some (or_default note "review rejected");
    approved_by = if allowed then some reviewed_by else none;
    approved_at_ms = if allowed then some now else none;
    approval_note = if allowed then note else row.approval_note;
    review_mode = some (or_default row.review_mode "manual");
    review_status = some (if allowed then "approved" else "rejected");
    reviewed_by = some reviewed_by;
    reviewed_at_ms = some now;
    review_note = note;
    review_artifact_path = path;
    review_payload_json = merged;
  }

  unfoldable pub ingest_review :
      ℕ
      → String
      → String
      → String
      → Option String
      → Option String
      → Option Fields
      → Journal
      → Result (Operation × Journal)
  unfolding or_empty
  ingest_review now op_id reviewed_by decision note path payload j = do
    require (decision == "allow" || decision == "deny") bad_review_decision
    row ← get_op op_id j
    let allowed = decision == "allow"
    validate_transition row.status (if allowed then "approved" else "rejected")
    merged ←
        merge_review_payload row.review_payload_json
          (some (put "review_decision" (str decision) (or_empty payload)))
    write_op op_id (ingest_row now allowed reviewed_by note path merged) j
