-- ===== src/Journal/History.antt =====
-- What a call of src/clawops/op_journal.py may do to the table `op`, as a step relation: nothing, a
-- new row with a fresh id and key, or an update of one row along the transition table.
pub mod Refines
pub mod Calls
pub mod Fate
pub mod Locks
pub mod Lifecycle
use strongclaw.Prelude.{
  ℕ, ◌+◌, String, ◌≡◌, refl, Bool, true, false, Option, none, some, List, [], ◌∷◌, ◌++◌, ◌⊎◌,
}
use strongclaw.Journal.Rows.{Operation}
use strongclaw.Journal.Status.Edges.{Edge}
use strongclaw.Journal.Tables.{find_op, find_key, update_op}
use strongclaw.Journal.Tables.Laws.{identity}
use strongclaw.Journal.Transition.{attempt_increment}

-- One row before and after: its columns of identity stay, its status follows the table, and its
-- attempts count the moves into `running`.
pub record RowStep (o p : Operation) : Type 0 where
  pub same_identity : identity p ≡ identity o
  pub same_creation : p.created_at_ms ≡ o.created_at_ms
  pub along : (o.status ≡ p.status) ⊎ Edge o.status p.status
  pub attempts : p.attempt ≡ o.attempt + attempt_increment p.status o.status

pub data OpsStep : List Operation → List Operation → Type 0 where
  same : {os : List Operation} → OpsStep os os
  added :
      {os : List Operation} (o : Operation)
      → find_op o.op_id os ≡ none
      → find_key o.scope o.idempotency_key os ≡ none
      → o.status ≡ "proposed"
      → o.attempt ≡ 0
      → OpsStep os (os ++ o ∷ [])
  changed :
      {os : List Operation} (id : String) (f : Operation → Operation) (o : Operation)
      → find_op id os ≡ some o
      → ((p : Operation) → identity (f p) ≡ identity p)
      → RowStep o (f o)
      → OpsStep os (update_op id f os)

-- Any number of steps.
pub data History (start : List Operation) : List Operation → Type 0 where
  here : History start start
  then : {os ps : List Operation} → History start os → OpsStep os ps → History start ps
