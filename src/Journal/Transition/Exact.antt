-- ===== src/Journal/Transition/Exact.antt =====
-- When `transition` of src/clawops/op_journal.py succeeds, and what it writes.
use strongclaw.Prelude.{ℕ, String, ◌≡◌, refl, some, none, ◌⊎◌, inl, inr}
use strongclaw.Result.{ok, err, unknown_operation, >>=-eq-ok}
use strongclaw.Journal.Rows.{Operation, Journal}
use strongclaw.Journal.Status.{validate_transition}
use strongclaw.Journal.Status.Edges.{Edge, validate-Edge, Edge-validate, validate_self}
use strongclaw.Journal.Tables.{find_op, update_op, get_op}
use strongclaw.Journal.Tables.Laws.{write_op_lem}
use strongclaw.Journal.Transition.{Changes, transition_row, transition}

may_move : (s t : String) → (s ≡ t) ⊎ Edge s t → validate_transition s t ≡ ok tt
may_move s t (inl e) = rw e (validate_self t)
may_move s t (inr e) = Edge-validate s t e

-- For an operation that exists: if its status is the new one or has an edge of the table to it,
-- `transition` returns the updated row and writes it to the table; and if `transition` succeeds, the
-- status was of this kind.
pub transition_exact :
    (now : ℕ) (id status : String) (c : Changes) (j : Journal) (o : Operation)
    → find_op id j.ops ≡ some o
    → ((o.status ≡ status) ⊎ Edge o.status status
        → transition now id status c j
          ≡ ok (
            transition_row now status c o,
            record j { ops = update_op id (transition_row now status c) j.ops },
          ))
      × ((r : Operation × Journal)
          → transition now id status c j ≡ ok r
          → (o.status ≡ status) ⊎ Edge o.status status)
unfolding transition get_op
transition_exact now id status c j o found = (
  λ m.
      rw (found, may_move o.status status m)
        (write_op_lem id (transition_row now status c) (unfold transition_row in λ p. refl) j o
          found),
  λ r h.
      (let (u, valid, rest) = >>=-eq-ok (validate_transition o.status status) _ (rw found at h) in
        validate-Edge o.status status valid),
)

-- An operation that does not exist is a KeyError.
pub transition_unknown :
    (now : ℕ) (id status : String) (c : Changes) (j : Journal)
    → find_op id j.ops ≡ none
    → transition now id status c j ≡ err (unknown_operation id)
unfolding transition get_op
transition_unknown now id status c j h = rw h
