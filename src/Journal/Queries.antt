-- ===== src/Journal/Queries.antt =====
-- The queries of src/clawops/op_journal.py: `queue`, `list_stuck` and `list_leases`. SQLite leaves
-- open how rows with equal columns are ordered; here they keep their order in the table. A cutoff
-- before the epoch has no row before it, and is 0 here.
pub mod Ordered
use strongclaw.Prelude.{
  ℕ, ◌-◌, Bool, ◌&&◌, ◌||◌, not, List, [], ◌∷◌, ◌==◌, if◌then◌else◌, is_some, ltb, leb, eqb,
  contains,
}
use strongclaw.Journal.Rows.{Operation, SessionLease, Journal}

-- WHERE
unfoldable pub select_rows {ℓ} : {A : Type ℓ} → (A → Bool) → List A → List A
select_rows test [] = []
select_rows test (a ∷ rows) = if test a then a ∷ select_rows test rows else select_rows test rows

-- ORDER BY, with the comparison of the columns
unfoldable pub place_row {ℓ} : {A : Type ℓ} → (A → A → Bool) → A → List A → List A
place_row before a [] = a ∷ []
place_row before a (b ∷ rows) = if before a b then a ∷ b ∷ rows else b ∷ place_row before a rows

unfoldable pub sort_rows {ℓ} : {A : Type ℓ} → (A → A → Bool) → List A → List A
unfolding place_row
sort_rows before [] = []
sort_rows before (a ∷ rows) = place_row before a (sort_rows before rows)

-- updated_at_ms ASC
abbrev pub by_update : Operation → Operation → Bool
by_update a b = leb a.updated_at_ms b.updated_at_ms

-- updated_at_ms ASC, created_at_ms ASC
abbrev pub by_times : ℕ → ℕ → ℕ → ℕ → Bool
by_times updated created updated' created' =
    ltb updated updated' || (eqb updated updated' && leb created created')

abbrev pub before_in_queue : Operation → Operation → Bool
before_in_queue a b = by_times a.updated_at_ms a.created_at_ms b.updated_at_ms b.created_at_ms

abbrev pub before_in_leases : SessionLease → SessionLease → Bool
before_in_leases a b = by_times a.updated_at_ms a.created_at_ms b.updated_at_ms b.created_at_ms

unfoldable pub queue : Journal → List Operation
unfolding select_rows sort_rows
queue j = sort_rows before_in_queue (select_rows (λ o. o.status == "pending_approval") j.ops)

unfoldable pub list_leases : Bool → Journal → List SessionLease
unfolding select_rows sort_rows
list_leases active_only j =
    let all = j.leases in
    let active = select_rows (λ l. not (is_some l.released_at_ms)) j.leases in
    sort_rows before_in_leases (if active_only then active else all)

unfoldable pub is_stuck : ℕ → Operation → Bool
is_stuck cutoff o =
    contains ("proposed" ∷ "pending_approval" ∷ "approved" ∷ "running" ∷ []) o.status
    && ltb o.updated_at_ms cutoff

unfoldable pub list_stuck : ℕ → ℕ → Journal → List Operation
unfolding select_rows sort_rows is_stuck
list_stuck now older_than_ms j =
    let cutoff = now - older_than_ms in sort_rows by_update (select_rows (is_stuck cutoff) j.ops)
