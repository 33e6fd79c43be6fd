-- ===== src/Result.antt =====
-- What the modelled code raises: one constructor for each place of src/clawops that raises, with
-- the values that its message names. A call that raises leaves the journal as it was: each call
-- opens one connection, whose `with` block rolls back.
use strongclaw.Prelude.{
  String, List, ◌≡◌, refl, subst, ◌⊎◌, inl, inr, Bool, true, false, if◌then◌else◌,
}

pub data Error : Type 0 where
  -- KeyError of the journal
  unknown_operation : String → Error
  unknown_lease : String → Error
  -- ValueError of the journal
  invalid_transition : String → String → Error
  not_pending_approval : String → Error
  not_delegable : String → Error
  bad_review_decision : Error
  bad_ttl : Error
  -- LeaseConflictError: the lock and the lease that holds it
  lease_conflict : String → String → Error
  -- sqlite3.IntegrityError of an INSERT
  integrity_error : Error
  -- json.JSONDecodeError, and the TypeError of `as_mapping`
  bad_json : Error
  not_a_mapping : Error
  -- AssertionError where a row that was just written is read again
  row_missing : Error
  -- KeyError and ValueError of devflow
  unknown_run : String → Error
  run_terminal not_resumable : String → String → Error
  nothing_to_resume : String → Error
  -- ValueError of `execute_http_operation`
  not_executable : String → String → Error
  missing_contract contract_mismatch : String → Error
  -- ValueError of `ensure_execution_contract` and `dispatch_pending_approval`
  denied_contract : String → Error
  dispatch_not_pending : Error
  -- TypeError of `as_string`
  not_text : Error
  -- ValueError of `_http_retry_mode`
  bad_retry_mode : Error
  -- TypeError and ValueError that name the field of an input
  wrong_type wrong_value : String → Error
  -- KeyError of a step without a key, and ValueError of a step of an unknown kind
  missing_key unknown_kind : String → Error
  -- DescriptorError: of `_validate_token`, of a path outside of the trusted roots, and of a
  -- descriptor, with what is wrong and the subject
  empty_token : String → Error
  bad_token : String → String → Error
  outside_roots : String → List String → Error
  descriptor_error : String → String → Error
  -- an exception of a request that `execute_http_operation` does not catch
  request_raised : String → Error
  -- an exception of the call of acpx
  adapter_raised : String → Error

-- What a call ends with.
pub data Result {ℓ} (A : Type ℓ) : Type ℓ where
  err : Error → Result A
  ok : A → Result A

module _ {ℓ κ} {A : Type ℓ} {B : Type κ} where
  infixl 5 ◌>>=◌
  -- the calls that come after, which an exception skips
  abbrev pub ◌>>=◌ : Result A → (A → Result B) → Result B
  err e >>= rest = err e
  ok a >>= rest = rest a

  -- A chain that returned: what its first call returned, and the rest of it.
  pub >>=-eq-ok :
      (first : Result A) (rest : A → Result B) {b : B}
      → (first >>= rest) ≡ ok b
      → (a : A) × (first ≡ ok a) × (rest a ≡ ok b)
  >>=-eq-ok (err e) rest returned = cc
  >>=-eq-ok (ok a) rest returned = (a, refl, returned)

infixl 5 ◌>>◌
-- a call whose result is not used
abbrev pub ◌>>◌ {κ} : {B : Type κ} → Result (Unit {0}) → Result B → Result B
first >> rest = first >>= λ done. rest

-- `if not test: raise error`
abbrev pub require : Bool → Error → Result (Unit {0})
require test e = if test then ok tt else err e

module _ {ℓ} {A : Type ℓ} where
  pub require-eq-ok :
      (test : Bool) (e : Error) (rest : Result A) {a : A}
      → (require test e >> rest) ≡ ok a
      → (test ≡ true) × (rest ≡ ok a)
  require-eq-ok false e rest returned = cc
  require-eq-ok true e rest returned = (refl, returned)

  pub Result-cases : (r : Result A) → ((e : Error) × (r ≡ err e)) ⊎ ((a : A) × (r ≡ ok a))
  Result-cases (err e) = inl (e, refl)
  Result-cases (ok a) = inr (a, refl)

  pub ok-injective : {a b : A} → ok a ≡ ok b → a ≡ b
  ok-injective same = cc

-- If a call returns, its result satisfies a predicate.
pub record Ensures {ℓ κ} {A : Type ℓ} (P : A → Type κ) (m : Result A) : Type (ℓ ⊔ κ) where
  pub at : (a : A) → m ≡ ok a → P a

module _ {ℓ κ} {A : Type ℓ} {P : A → Type κ} where
  pub ok-Ensures : (a : A) → P a → Ensures P (ok a)
  ok-Ensures a h = record { at = λ b e. subst P (ok-injective e) h }

  pub err-Ensures : (e : Error) → Ensures P (err e)
  err-Ensures e = record { at = λ b same. absurd (cc) }

  pub require-Ensures :
      (test : Bool) (e : Error) (rest : Result A)
      → Ensures P rest
      → Ensures P (require test e >> rest)
  require-Ensures false e rest h = err-Ensures e
  require-Ensures true e rest h = h

  pub test-Ensures :
      (test : Bool) (e : Error) (rest : Result A)
      → (test ≡ true → Ensures P rest)
      → Ensures P (require test e >> rest)
  test-Ensures false e rest h = err-Ensures e
  test-Ensures true e rest h = h refl

  pub if-Ensures :
      (test : Bool) (m n : Result A)
      → (test ≡ true → Ensures P m)
      → (test ≡ false → Ensures P n)
      → Ensures P (if test then m else n)
  if-Ensures true m n f g = f refl
  if-Ensures false m n f g = g refl

module _ {ℓ κ μ ν} {A : Type ℓ} {B : Type κ} {Q : A → Type μ} {P : B → Type ν} where
  pub bind-Ensures :
      (m : Result A) (rest : A → Result B)
      → Ensures Q m
      → ((a : A) → Q a → Ensures P (rest a))
      → Ensures P (m >>= rest)
  bind-Ensures (err e) rest h k = err-Ensures e
  bind-Ensures (ok a) rest h k = k a (h.at a refl)

pub require_test-Ensures :
    (test : Bool) (e : Error) → Ensures (λ done. test ≡ true) (require test e)
require_test-Ensures true e = ok-Ensures tt refl
require_test-Ensures false e = err-Ensures e

-- Of a result that no more is known of.
abbrev pub Any {ℓ} : {A : Type ℓ} → A → Type 0
Any a = Unit

pub Any-Ensures {ℓ} : {A : Type ℓ} (m : Result A) → Ensures Any m
Any-Ensures m = record { at = λ a e. tt }
