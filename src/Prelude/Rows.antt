-- ===== src/Prelude/Rows.antt =====
-- Tables as lists of rows: SELECT and UPDATE by a test of the row, and their laws.
use Prim.Native.Nat.{ℕ, suc, ◌+◌}
use mathlib.Core.Path.{◌≡◌, refl, ap, ◌∙◌}
use mathlib.Core.Logic.{inl, inr}
use mathlib.Core.Bool.{Bool, true}
use mathlib.Core.Option.{Option, none, some}
use mathlib.Core.List.{List, [], ◌∷◌, ◌++◌}
use native.Mathlib.Omega.{arith}
use strongclaw.Prelude.Lists.{All}
use strongclaw.Prelude.Tests.{if◌then◌else◌, Bool-cases}

module _ {ℓ} {A : Type ℓ} where
  -- SELECT * ... WHERE test, the first row
  unfoldable pub find : (A → Bool) → List A → Option A
  find test [] = none
  find test (a ∷ rows) = if test a then some a else find test rows

  abbrev pub change_if : (A → Bool) → (A → A) → A → A
  change_if test f a = if test a then f a else a

  -- UPDATE ... SET f WHERE test
  unfoldable pub update_where : (A → Bool) → (A → A) → List A → List A
  update_where test f [] = []
  update_where test f (a ∷ rows) = change_if test f a ∷ update_where test f rows

  -- SELECT * ... WHERE test, all rows
  unfoldable pub select : (A → Bool) → List A → List A
  select test [] = []
  select test (a ∷ rows) = let rest = select test rows in if test a then a ∷ rest else rest

  unfoldable pub count : (A → Bool) → List A → ℕ
  count test [] = 0
  count test (a ∷ rows) = let n = count test rows in if test a then suc n else n

  unfoldable pub option_map : (A → A) → Option A → Option A
  option_map f none = none
  option_map f (some a) = some (f a)

  -- A test that the UPDATE leaves alone, seen by each SELECT.
  module _ (test other : A → Bool) (f : A → A) (keeps : (a : A) → other (f a) ≡ other a) where
    keeps_change : (a : A) → other (change_if test f a) ≡ other a
    keeps_change a = elim (Bool-cases (test a)) [ inl e ↦ rw e (keeps a) | inr e ↦ rw e refl ]

    pub find-update_where :
        (rows : List A)
        → find other (update_where test f rows) ≡ option_map (change_if test f) (find other rows)
    unfolding find update_where option_map
    find-update_where [] = refl
    find-update_where (a ∷ rows) = elim (Bool-cases (other a)) [
      | inl e ↦ rw (keeps_change a, e) refl
      | inr e ↦ rw (keeps_change a, e) (find-update_where rows)
    ]

    pub count-update_where :
        (rows : List A) → count other (update_where test f rows) ≡ count other rows
    unfolding count update_where
    count-update_where [] = refl
    count-update_where (a ∷ rows) = rw (keeps_change a, count-update_where rows) refl

  pub find-append_none :
      (test : A → Bool) (rows : List A) (a : A)
      → find test rows ≡ none
      → find test (rows ++ a ∷ []) ≡ (if test a then some a else none)
  unfolding find
  find-append_none test [] a h = refl
  find-append_none test (b ∷ rows) a h = elim (Bool-cases (test b)) [
    | inl e ↦ cc (rw e at h)
    | inr e ↦ rw e (find-append_none test rows a (rw e at h))
  ]

  pub find-append_some :
      (test : A → Bool) (rows : List A) (a : A) {b : A}
      → find test rows ≡ some b
      → find test (rows ++ a ∷ []) ≡ some b
  unfolding find
  find-append_some test [] a h = cc
  find-append_some test (c ∷ rows) a h = elim (Bool-cases (test c)) [
    | inl e ↦ rw e (rw e at h)
    | inr e ↦ rw e (find-append_some test rows a (rw e at h))
  ]

  pub find-test :
      (test : A → Bool) (rows : List A) {a : A} → find test rows ≡ some a → test a ≡ true
  unfolding find
  find-test test [] h = cc
  find-test test (b ∷ rows) {a} h = elim (Bool-cases (test b)) [
    | inl e ↦ (let found : some b ≡ some a = rw e at h in ap test (cc found) ∙ e)
    | inr e ↦ find-test test rows (rw e at h)
  ]

  pub count-append :
      (test : A → Bool) (rows : List A) (a : A)
      → count test (rows ++ a ∷ []) ≡ count test rows + (if test a then 1 else 0)
  unfolding count
  count-append test [] a = ground arith
  count-append test (b ∷ rows) a = ground (arith, count-append test rows a)

  -- A SELECT that finds nothing counts nothing.
  pub count-absent : (test : A → Bool) (rows : List A) → find test rows ≡ none → count test rows ≡ 0
  unfolding count find
  count-absent test [] h = refl
  count-absent test (a ∷ rows) h = elim (Bool-cases (test a)) [
    | inl e ↦ cc (rw e at h)
    | inr e ↦ rw e (count-absent test rows (rw e at h))
  ]

module _ {ℓ κ} {A : Type ℓ} (P : A → Type κ) (test : A → Bool) (f : A → A) where
  pub All-update_where :
      (rows : List A) → ((a : A) → P a → P (f a)) → All P rows → All P (update_where test f rows)
  unfolding update_where
  All-update_where [] keeps h = tt
  All-update_where (a ∷ rows) keeps (ha, h) = (changed, All-update_where rows keeps h)
    where
      changed : P (change_if test f a)
      changed = elim (Bool-cases (test a)) [ inl e ↦ rw e (keeps a ha) | inr e ↦ rw e ha ]

-- The row that is selected and changed.
pub find-update_same {ℓ} :
    {A : Type ℓ} (test : A → Bool) (f : A → A) (rows : List A) {a : A}
    → ((x : A) → test (f x) ≡ test x)
    → find test rows ≡ some a
    → find test (update_where test f rows) ≡ some (f a)
unfolding option_map
find-update_same test f rows keeps found =
    let matches = find-test test rows found in
    rw (find-update_where test test f keeps rows, found, matches) refl
