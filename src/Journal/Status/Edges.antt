-- ===== src/Journal/Status/Edges.antt =====
-- The transition table of src/clawops/op_journal.py as a relation.
use strongclaw.Prelude.{
  String, ◌≡◌, refl, true, List, [], ◌∷◌, ◌⊎◌, inl, inr, arith, ◌==◌, eq_iff, contains, Bool-cases,
  eq_refl,
}
use strongclaw.Result.{ok}
use strongclaw.Journal.Status.{allowed_transitions, targets, is_allowed, validate_transition}

pub data Edge : String → String → Type 0 where
  deny : Edge "proposed" "failed"
  ask : Edge "proposed" "pending_approval"
  allow : Edge "proposed" "approved"
  withdraw : Edge "proposed" "cancelled"
  refuse : Edge "proposed" "rejected"
  approve_pending : Edge "pending_approval" "approved"
  fail_pending : Edge "pending_approval" "failed"
  cancel_pending : Edge "pending_approval" "cancelled"
  reject_pending : Edge "pending_approval" "rejected"
  start : Edge "approved" "running"
  fail_approved : Edge "approved" "failed"
  cancel_approved : Edge "approved" "cancelled"
  succeed : Edge "running" "succeeded"
  fail_running : Edge "running" "failed"
  cancel_running : Edge "running" "cancelled"

abbrev OneOf : List String → String → Type 0
OneOf [] s = ⊥
OneOf (x ∷ xs) s = (s ≡ x) ⊎ OneOf xs s

contains-OneOf : (xs : List String) (s : String) → contains xs s ≡ true → OneOf xs s
contains-OneOf [] s h = cc
contains-OneOf (x ∷ xs) s h = elim (Bool-cases (s == x)) [
  | inl e ↦ inl ((eq_iff s x).0 e)
  | inr e ↦ inr (contains-OneOf xs s (rw e at h))
]

-- The entries of the table that hold the pair.
abbrev Entry : List (String × List String) → String → String → Type 0
Entry [] s t = ⊥
Entry ((x, ts) ∷ table) s t = ((s ≡ x) × OneOf ts t) ⊎ Entry table s t

targets-Entry :
    (table : List (String × List String)) (s t : String)
    → is_allowed (targets table s) t ≡ true
    → Entry table s t
unfolding targets is_allowed
targets-Entry [] s t h = cc
targets-Entry ((x, ts) ∷ table) s t h = elim (Bool-cases (s == x)) [
  | inl e ↦ inl ((eq_iff s x).0 e, contains-OneOf ts t (rw e at h))
  | inr e ↦ inr (targets-Entry table s t (rw e at h))
]

from_proposed :
    (t : String)
    → OneOf ("failed" ∷ "pending_approval" ∷ "approved" ∷ "cancelled" ∷ "rejected" ∷ []) t
    → Edge "proposed" t
from_proposed t (inl e) = rw e deny
from_proposed t (inr (inl e)) = rw e ask
from_proposed t (inr (inr (inl e))) = rw e allow
from_proposed t (inr (inr (inr (inl e)))) = rw e withdraw
from_proposed t (inr (inr (inr (inr (inl e))))) = rw e refuse
from_proposed t (inr (inr (inr (inr (inr e))))) = absurd e

from_pending :
    (t : String)
    → OneOf ("approved" ∷ "failed" ∷ "cancelled" ∷ "rejected" ∷ []) t
    → Edge "pending_approval" t
from_pending t (inl e) = rw e approve_pending
from_pending t (inr (inl e)) = rw e fail_pending
from_pending t (inr (inr (inl e))) = rw e cancel_pending
from_pending t (inr (inr (inr (inl e)))) = rw e reject_pending
from_pending t (inr (inr (inr (inr e)))) = absurd e

from_approved : (t : String) → OneOf ("running" ∷ "failed" ∷ "cancelled" ∷ []) t → Edge "approved" t
from_approved t (inl e) = rw e start
from_approved t (inr (inl e)) = rw e fail_approved
from_approved t (inr (inr (inl e))) = rw e cancel_approved
from_approved t (inr (inr (inr e))) = absurd e

from_running : (t : String) → OneOf ("succeeded" ∷ "failed" ∷ "cancelled" ∷ []) t → Edge "running" t
from_running t (inl e) = rw e succeed
from_running t (inr (inl e)) = rw e fail_running
from_running t (inr (inr (inl e))) = rw e cancel_running
from_running t (inr (inr (inr e))) = absurd e

Entry-Edge : (s t : String) → Entry allowed_transitions s t → Edge s t
Entry-Edge s t (inl (e, m)) = rw e (from_proposed t m)
Entry-Edge s t (inr (inl (e, m))) = rw e (from_pending t m)
Entry-Edge s t (inr (inr (inl (e, m)))) = rw e (from_approved t m)
Entry-Edge s t (inr (inr (inr (inl (e, m))))) = rw e (from_running t m)
Entry-Edge s t (inr (inr (inr (inr (inl (e, m)))))) = absurd m
Entry-Edge s t (inr (inr (inr (inr (inr (inl (e, m))))))) = absurd m
Entry-Edge s t (inr (inr (inr (inr (inr (inr (inl (e, m)))))))) = absurd m
Entry-Edge s t (inr (inr (inr (inr (inr (inr (inr (inl (e, m))))))))) = absurd m
Entry-Edge s t (inr (inr (inr (inr (inr (inr (inr (inr e)))))))) = absurd e

-- A change of status that passes the check follows an edge of the table.
pub validate-Edge : (s t : String) → validate_transition s t ≡ ok tt → (s ≡ t) ⊎ Edge s t
unfolding validate_transition
validate-Edge s t h = elim (Bool-cases (s == t)) [
  | inl e ↦ inl ((eq_iff s t).0 e)
  | inr e ↦ inr (Entry-Edge s t (targets-Entry allowed_transitions s t (ground arith)))
]

-- Every edge passes the check, and so does no change.
pub Edge-validate : (s t : String) → Edge s t → validate_transition s t ≡ ok tt
unfolding validate_transition
Edge-validate _ _ deny = refl
Edge-validate _ _ ask = refl
Edge-validate _ _ allow = refl
Edge-validate _ _ withdraw = refl
Edge-validate _ _ refuse = refl
Edge-validate _ _ approve_pending = refl
Edge-validate _ _ fail_pending = refl
Edge-validate _ _ cancel_pending = refl
Edge-validate _ _ reject_pending = refl
Edge-validate _ _ start = refl
Edge-validate _ _ fail_approved = refl
Edge-validate _ _ cancel_approved = refl
Edge-validate _ _ succeed = refl
Edge-validate _ _ fail_running = refl
Edge-validate _ _ cancel_running = refl

pub validate_self : (s : String) → validate_transition s s ≡ ok tt
unfolding validate_transition
validate_self s = rw (eq_refl s)
