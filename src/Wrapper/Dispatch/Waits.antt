-- ===== src/Wrapper/Dispatch/Waits.antt =====
-- A dispatch of src/clawops/approval_dispatch.py leaves its operation pending approval.
use strongclaw.Prelude.{ℕ, String, ◌≡◌, refl, inl, Option, none, some}
use strongclaw.Journal.Rows.{Operation, Journal}
use strongclaw.Journal.Tables.{find_op}
use strongclaw.Journal.Tables.Laws.{find_op-update}
use strongclaw.Journal.Transition.{transition_row}
use strongclaw.Journal.Transition.Exact.{transition_exact}
use strongclaw.Wrapper.Dispatch.{Desk, dispatch_changes, registered, register}

-- What a dispatch returns is pending approval, and stands in the journal.
pub register_waits :
    (desk : Desk) (now : ℕ) (op : Operation) (j : Journal)
    → find_op op.op_id j.ops ≡ some op
    → op.status ≡ "pending_approval"
    → (raised : Option String)
    → ((register desk now op raised j).0.operation.status ≡ "pending_approval")
      × (find_op
            (register desk now op raised j).0.operation.op_id
            (register desk now op raised j).1.ops
          ≡ some (register desk now op raised j).0.operation)
unfolding register registered
register_waits desk now op j found pending (some raised) = (pending, found)
register_waits desk now op j found pending none =
    let c = dispatch_changes desk op in
    let done = (transition_exact now op.op_id "pending_approval" c j op found).0 (inl pending) in
    rw done (
      unfold transition_row in refl,
      unfold transition_row in
          find_op-update op.op_id (transition_row now "pending_approval" c)
            (unfold transition_row in λ o. refl) j.ops op found,
    )
