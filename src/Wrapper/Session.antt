-- ===== src/Wrapper/Session.antt =====
-- Calls of the journal one after another, as the wrappers of src/clawops/wrappers/base.py make them:
-- each commits, so what a call did stays when a later one raises.
use strongclaw.Prelude.{◌≡◌, ap}
use strongclaw.Result.{Result, ok, err}
use strongclaw.Journal.Rows.{Journal}

abbrev pub Session : Type 0 → Type 0
Session A = Journal → Result A × Journal

unfoldable pub settled : {A : Type 0} → Result (A × Journal) → Session A
settled (err e) j = (err e, j)
settled (ok r) j = (ok r.0, r.1)

-- one call of the journal, which rolls back if it raises
unfoldable pub call : {A : Type 0} → (Journal → Result (A × Journal)) → Session A
unfolding settled
call m j = settled (m j) j

-- code that does not call the journal
unfoldable pub lift : {A : Type 0} → Result A → Session A
lift r j = (r, j)

module _ {A B : Type 0} where
  unfoldable pub after : (A → Session B) → Result A × Journal → Result B × Journal
  after rest (err e, j) = (err e, j)
  after rest (ok a, j) = rest a j

  infixl 5 ◌>>=◌
  unfoldable pub ◌>>=◌ : Session A → (A → Session B) → Session B
  unfolding after
  (first >>= rest) j = after rest (first j)

  -- a first call that returned
  pub call-eq :
      (m : Journal → Result (A × Journal)) (rest : A → Session B) (j : Journal) {r : A × Journal}
      → m j ≡ ok r
      → (call m >>= rest) j ≡ rest r.0 r.1
  unfolding call settled after ◌>>=◌
  call-eq m rest j done = ap (λ (r : Result (A × Journal)). after rest (settled r j)) done
