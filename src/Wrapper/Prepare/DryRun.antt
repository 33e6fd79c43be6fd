-- ===== src/Wrapper/Prepare/DryRun.antt =====
-- A dry run of `prepare_operation` of src/clawops/wrappers/base.py.
use strongclaw.Prelude.{and_false, ℕ, ◌≡◌, refl, subst, Bool, true, false, ◌==◌, if◌then◌else◌}
use strongclaw.Value.{Fields}
use strongclaw.Runtime.{Runtime}
use strongclaw.Result.{Result, ok, err, ok-injective}
use strongclaw.Journal.Rows.{Operation, Journal}
use strongclaw.Journal.Begin.{Request}
use strongclaw.Policy.Decision.{Decision}
use strongclaw.Policy.Evaluate.{evaluate}
use strongclaw.Wrapper.Session.{Session, lift, after, ◌>>=◌}
use strongclaw.Wrapper.Dispatch.{Desk}
use strongclaw.Wrapper.Prepare.{
  PreparedOperation, prepare_existing, prepare_denied, prepare_pending, prepare_allowed,
  prepare_proposed, prepare_operation,
}

-- Whatever a session returns satisfies a predicate.
abbrev Returns : {A : Type 0} → (A → Type 0) → Session A → Type 0
Returns {A} P s = (j : Journal) (a : A) → (s j).0 ≡ ok a → P a

module _ {B : Type 0} (P : B → Type 0) where
  Returns-lift : (b : B) → P b → Returns P (lift (ok b))
  unfolding lift
  Returns-lift b h j a e = subst P (ok-injective e) h

  Returns-if :
      (test : Bool) (s t : Session B)
      → Returns P s
      → Returns P t
      → Returns P (if test then s else t)
  Returns-if true s t h k = h
  Returns-if false s t h k = k

module _ {A B : Type 0} (P : B → Type 0) where
  Returns-after :
      (rest : A → Session B)
      → ((a : A) → Returns P (rest a))
      → (r : Result A × Journal) (b : B) → (after rest r).0 ≡ ok b
      → P b
  unfolding after
  Returns-after rest h (err e, j) b done = cc
  Returns-after rest h (ok a, j) b done = h a j b done

  Returns-bind :
      (first : Session A) (rest : A → Session B)
      → ((a : A) → Returns P (rest a))
      → Returns P (first >>= rest)
  unfolding ◌>>=◌
  Returns-bind first rest h j b done = Returns-after rest h (first j) b done

-- Not to be executed.
abbrev Idle : PreparedOperation → Type 0
Idle p = p.should_execute ≡ false

module _ (rt : Runtime) (policy : Fields) (desk : Desk) (first second third : ℕ)
    (payload : Fields) where
  denied_Idle :
      (op : Operation) (d : Decision)
      → Returns Idle (prepare_denied rt policy desk true first second third payload op d)
  unfolding prepare_denied
  denied_Idle op d = Returns-bind Idle _ _ (λ updated. Returns-lift Idle _ refl)

  pending_Idle :
      (op : Operation) (d : Decision)
      → Returns Idle (prepare_pending rt policy desk true first second third payload op d)
  unfolding prepare_pending
  pending_Idle op d =
      Returns-bind Idle _ _ (λ updated. Returns-bind Idle _ _ (λ sent. Returns-lift Idle _ refl))

  allowed_Idle :
      (op : Operation) (d : Decision)
      → Returns Idle (prepare_allowed rt policy desk true first second third payload op d)
  unfolding prepare_allowed
  allowed_Idle op d = Returns-bind Idle _ _ (λ updated. Returns-lift Idle _ refl)

  existing_Idle :
      (op : Operation)
      → Returns Idle (prepare_existing rt policy desk true first second third payload op)
  unfolding prepare_existing
  existing_Idle op = Returns-bind Idle _ _ (λ stored. Returns-bind Idle _ _ (λ ensured.
      Returns-bind Idle _ _
        (λ sent. Returns-lift Idle _ (and_false (sent.0.status == "approved")))))

  -- Whatever a dry run of `prepare_operation` returns is not to be executed.
  dry_run_is_idle :
      (request : Request) (j : Journal) (p : PreparedOperation)
      → (prepare_operation rt policy desk true first second third payload request j).0 ≡ ok p
      → p.should_execute ≡ false
  unfolding prepare_operation prepare_proposed
  dry_run_is_idle request =
      let d = evaluate rt policy payload in
      Returns-bind Idle _ _ (λ op.
        Returns-if Idle (op.status == "proposed") _ _
          (Returns-if Idle (d.decision == "deny") _ _ (denied_Idle op d) (
            Returns-if Idle (d.decision == "require_approval") _ _ (pending_Idle op d)
              (allowed_Idle op d)))
          (existing_Idle op))
