-- ===== src/Journal/Queries/Ordered.antt =====
-- What the queries of src/clawops/op_journal.py return.
use mathlib.Core.Bool.{Bool-set}
use mathlib.Core.List.{Mem, Perm, Pairwise, Pairwise-singleton, forall_mem-cons}
use mathlib.Core.List.Perm
use strongclaw.Prelude.{
  ℕ, ◌-◌, String, Bool, true, false, ◌≡◌, refl, ap, not, is_some, ◌&&◌, Option, none, some, List,
  [], ◌∷◌, ◌==◌, Bool-cases, inl, inr, ltb, arith, contains,
}
use strongclaw.Journal.Rows.{Operation, Journal}
use strongclaw.Journal.Status.{allowed_transitions, targets}
use strongclaw.Journal.Queries.{
  select_rows, place_row, sort_rows, by_update, before_in_queue, queue, is_stuck, list_stuck,
  before_in_leases, list_leases,
}

module _ {ℓ} {A : Type ℓ} (before : A → A → Bool) where
  abbrev pub IsBefore : A → A → Type 0
  IsBefore a b = before a b ≡ true

  place_row-Perm : (a : A) (rows : List A) → Perm (place_row before a rows) (a ∷ rows)
  unfolding place_row
  place_row-Perm a [] = Perm.rfl
  place_row-Perm a (b ∷ rows) = elim (Bool-cases (before a b)) [
    | inl e ↦ rw e Perm.rfl
    | inr e ↦ rw e (Perm.trans (Perm.cons b (place_row-Perm a rows)) (Perm.swap a b rows))
  ]

  sort_rows-Perm : (rows : List A) → Perm (sort_rows before rows) rows
  unfolding sort_rows
  sort_rows-Perm [] = Perm.rfl
  sort_rows-Perm (a ∷ rows) =
      Perm.trans (place_row-Perm a (sort_rows before rows)) (Perm.cons a (sort_rows-Perm rows))

  -- The rows of the table that pass a test, each as often as the table has it, in the order of the
  -- columns.
  pub record IsAnswer (test : A → Bool) (rows answer : List A) : Type ℓ where
    pub ordered : Pairwise IsBefore answer
    pub selected : Perm answer (select_rows test rows)

  module _ (total : (a b : A) → before a b ≡ false → before b a ≡ true)
      (compose : (a b c : A) → before a b ≡ true → before b c ≡ true → before a c ≡ true) where
    above-cons :
        {a b : A} {rows : List A}
        → IsBefore a b
        → ((x : A) → Mem x rows → IsBefore a x)
        → (x : A) → Mem x (b ∷ rows)
        → IsBefore a x
    above-cons {a} first rest = (forall_mem-cons (λ x. Bool-set (before a x) true)).1 (first, rest)

    place_row-Pairwise :
        (a : A) (rows : List A)
        → Pairwise IsBefore rows
        → Pairwise IsBefore (place_row before a rows)
    unfolding place_row
    place_row-Pairwise a [] sorted = Pairwise-singleton _ a
    place_row-Pairwise a (b ∷ rows) (Pairwise.cons above sorted) = elim (Bool-cases (before a b)) [
      | inl e ↦ rw e (
          Pairwise.cons (above-cons e λ x m. compose a b x e (above x m))
            (Pairwise.cons above sorted))
      | inr e ↦ rw e (
          Pairwise.cons
            (λ x m. above-cons (total a b e) above x ((Perm.mem_iff (place_row-Perm a rows)).0 m))
            (place_row-Pairwise a rows sorted))
    ]

    sort_rows-Pairwise : (rows : List A) → Pairwise IsBefore (sort_rows before rows)
    unfolding sort_rows
    sort_rows-Pairwise [] = Pairwise.nil
    sort_rows-Pairwise (a ∷ rows) =
        place_row-Pairwise a (sort_rows before rows) (sort_rows-Pairwise rows)

    sort_rows-IsAnswer :
        (test : A → Bool) (rows : List A)
        → IsAnswer test rows (sort_rows before (select_rows test rows))
    sort_rows-IsAnswer test rows = record {
      ordered = sort_rows-Pairwise _;
      selected = sort_rows-Perm _;
    }

select_rows-eq {ℓ} :
    {A : Type ℓ} (p q : A → Bool)
    → ((a : A) → p a ≡ q a)
    → (rows : List A) → select_rows p rows ≡ select_rows q rows
unfolding select_rows
select_rows-eq p q same [] = refl
select_rows-eq p q same (a ∷ rows) = elim (Bool-cases (q a)) [
  | inl e ↦ rw (same a, e) (ap (◌∷◌ a) (select_rows-eq p q same rows))
  | inr e ↦ rw (same a, e) (select_rows-eq p q same rows)
]

-- ALLOWED_TRANSITIONS has a status that this one may change to
abbrev pub can_move : Option (List String) → Bool
can_move none = false
can_move (some []) = false
can_move (some (s ∷ ss)) = true

can_move-stuck :
    (status : String)
    → contains ("proposed" ∷ "pending_approval" ∷ "approved" ∷ "running" ∷ []) status
      ≡ can_move (targets allowed_transitions status)
unfolding targets
can_move-stuck status = ground arith

-- An operation that may still change its status, and whose last update is before a time.
abbrev pub moves_since : ℕ → Operation → Bool
moves_since cutoff o = can_move (targets allowed_transitions o.status) && ltb o.updated_at_ms cutoff

stuck-moves :
    (cutoff : ℕ) (rows : List Operation)
    → select_rows (is_stuck cutoff) rows ≡ select_rows (moves_since cutoff) rows
unfolding is_stuck
stuck-moves cutoff =
    select_rows-eq (is_stuck cutoff) (moves_since cutoff)
      λ o. ap (λ b. b && ltb o.updated_at_ms cutoff) (can_move-stuck o.status)

-- `list_stuck` returns the operations that `ALLOWED_TRANSITIONS` lets change their status and whose
-- last update is longer ago than the given age, each as often as the table has it, the oldest
-- update first.
pub list_stuck-IsAnswer :
    (now older_than_ms : ℕ) (j : Journal)
    → IsAnswer by_update (moves_since (now - older_than_ms)) j.ops (list_stuck now older_than_ms j)
unfolding list_stuck
list_stuck-IsAnswer now older_than_ms j = rw (stuck-moves (now - older_than_ms) j.ops) (
    sort_rows-IsAnswer by_update (λ a b h. ground arith) (λ a b c h k. ground arith)
      (moves_since (now - older_than_ms)) j.ops)

-- `queue` returns the operations whose status is pending_approval, those with the oldest update
-- first, and among equal updates those that were created first.
pub queue-IsAnswer :
    (j : Journal) → IsAnswer before_in_queue (λ o. o.status == "pending_approval") j.ops (queue j)
unfolding queue
queue-IsAnswer j =
    sort_rows-IsAnswer before_in_queue (λ a b h. ground arith) (λ a b c h k. ground arith) _ j.ops

-- `list_leases` with `active_only` returns the leases that are not released, those with the oldest
-- update first.
pub list_leases-IsAnswer :
    (j : Journal)
    → IsAnswer before_in_leases (λ l. not (is_some l.released_at_ms)) j.leases (list_leases true j)
unfolding list_leases
list_leases-IsAnswer j =
    sort_rows-IsAnswer before_in_leases (λ a b h. ground arith) (λ a b c h k. ground arith) _
      j.leases
