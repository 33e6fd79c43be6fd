-- ===== src/Wrapper/Dispatch.antt =====
-- `dispatch_pending_approval` of src/clawops/approval_dispatch.py, without the contents of the
-- reviewer packet.
pub mod Waits
use strongclaw.Prelude.{ℕ, String, Option, none, some, ◌==◌, if◌then◌else◌}
use strongclaw.Prelude.Text.{is_nonempty}
use strongclaw.Result.{Result, ok, err, Error, dispatch_not_pending}
use strongclaw.Journal.Rows.{Operation, Journal}
use strongclaw.Journal.Transition.{Changes, to, no_changes, transition}
use strongclaw.Journal.Review.{or_default}
use strongclaw.Wrapper.Session.{Session}

-- What the dispatch of a reviewer packet uses of the file system: the path of an artifact, the
-- default path of an operation, and what writing the packet raises, if anything, as a text; and
-- `str` of what the journal raises.
pub record Desk : Type 0 where
  pub resolve : String → String
  pub default_path : String → String
  pub write : String → Operation → Option String
  pub error_text : Error → String

-- `ApprovalDispatchOutcome`, whose channel is always "local_file"
pub record DispatchOutcome : Type 0 where
  pub operation : Operation
  pub artifact_path : String
  pub error : Option String

module _ (desk : Desk) where
  -- the resolved path of the row, or the default one
  unfoldable pub artifact_path : Operation → String
  unfolding or_default
  artifact_path op =
      let given = or_default op.review_artifact_path "" in
      if is_nonempty given then desk.resolve given else desk.default_path op.op_id

  -- the keyword arguments of the transition of a dispatch
  unfoldable pub dispatch_changes : Operation → Changes
  dispatch_changes op = record no_changes {
    review_artifact_path = to (some (artifact_path op));
    review_status = to (some (or_default op.review_status "pending"));
  }

  unfoldable pub registered :
      Operation → Journal → Result (Operation × Journal) → DispatchOutcome × Journal
  registered op j (err e) = (
    record { operation = op; artifact_path = artifact_path op; error = some (desk.error_text e) },
    j,
  )
  registered op j (ok (updated, j')) =
      (record { operation = updated; artifact_path = artifact_path op; error = none }, j')

  -- the UPDATE of a dispatch, or what was raised
  unfoldable pub register : ℕ → Operation → Option String → Journal → DispatchOutcome × Journal
  unfolding registered
  register now op (some raised) j =
      (record { operation = op; artifact_path = artifact_path op; error = some raised }, j)
  register now op none j =
      registered op j (transition now op.op_id "pending_approval" (dispatch_changes op) j)

  -- `dispatch_pending_approval`
  unfoldable pub dispatch_pending_approval : ℕ → Operation → Session DispatchOutcome
  unfolding register
  dispatch_pending_approval now op j =
      if op.status == "pending_approval"
      then (
        ok (register now op (desk.write (artifact_path op) op) j).0,
        (register now op (desk.write (artifact_path op) op) j).1,
      )
      else (err dispatch_not_pending, j)
