-- ===== src/Journal/History/Lifecycle.antt =====
-- What holds of every row after any sequence of calls of `OperationJournal`
-- (src/clawops/op_journal.py): one of the eight statuses, and a run at most once.
use strongclaw.Prelude.{
  ℕ, ◌+◌, ◌≤◌, String, ◌≡◌, refl, sym, ap, subst, ◌∙◌, Bool, true, false, none, some, List, [], ◌∷◌,
  ◌++◌, ◌⊎◌, inl, inr, arith, ◌==◌, eq_iff, eq-ne, eqb, leb, Bool-cases, contains, All,
  if◌then◌else◌,
}
use strongclaw.Runtime.{Runtime}
use strongclaw.Journal.Rows.{Operation, empty_journal}
use strongclaw.Journal.Status.Edges.{
  Edge, deny, ask, allow, withdraw, refuse, approve_pending, fail_pending, cancel_pending,
  reject_pending, start, fail_approved, cancel_approved, succeed, fail_running, cancel_running,
}
use strongclaw.Journal.Tables.{find_op, update_op}
use strongclaw.Journal.Tables.Laws.{
  identity, find_op-append, find_op-update_none, updated_id, update_op-absent,
}
use strongclaw.Journal.Transition.{attempt_increment}
use strongclaw.Journal.History.{RowStep, OpsStep, same, added, changed, History, here}
use strongclaw.Journal.History.Calls.{Call, run_calls, run_calls-History}

-- The attempts that go with a status; a status that is none of the eight goes with none.
pub lifecycle : String → ℕ → Bool
lifecycle status attempt =
    if contains ("proposed" ∷ "pending_approval" ∷ "approved" ∷ "rejected" ∷ []) status
    then eqb attempt 0
    else if contains ("running" ∷ "succeeded" ∷ []) status
    then eqb attempt 1
    else if contains ("failed" ∷ "cancelled" ∷ []) status
    then leb attempt 1
    else false

lifecycle-Edge :
    {s t : String} (n : ℕ)
    → Edge s t
    → lifecycle s n ≡ true
    → lifecycle t (n + attempt_increment t s) ≡ true
unfolding lifecycle attempt_increment
lifecycle-Edge n deny h = ground arith
lifecycle-Edge n ask h = ground arith
lifecycle-Edge n allow h = ground arith
lifecycle-Edge n withdraw h = ground arith
lifecycle-Edge n refuse h = ground arith
lifecycle-Edge n approve_pending h = ground arith
lifecycle-Edge n fail_pending h = ground arith
lifecycle-Edge n cancel_pending h = ground arith
lifecycle-Edge n reject_pending h = ground arith
lifecycle-Edge n start h = ground arith
lifecycle-Edge n fail_approved h = ground arith
lifecycle-Edge n cancel_approved h = ground arith
lifecycle-Edge n succeed h = ground arith
lifecycle-Edge n fail_running h = ground arith
lifecycle-Edge n cancel_running h = ground arith

lifecycle-stay :
    (s : String) (n : ℕ) → lifecycle s n ≡ true → lifecycle s (n + attempt_increment s s) ≡ true
unfolding attempt_increment
lifecycle-stay s n h = let same_number : n + 0 ≡ n = omega arith in ground arith

abbrev pub IsAlive : Operation → Type 0
IsAlive o = lifecycle o.status o.attempt ≡ true

lifecycle-next :
    (s t : String) (n : ℕ)
    → (s ≡ t) ⊎ Edge s t
    → lifecycle s n ≡ true
    → lifecycle t (n + attempt_increment t s) ≡ true
lifecycle-next s t n (inl e) h = rw (← e) (lifecycle-stay s n h)
lifecycle-next s t n (inr e) h = lifecycle-Edge n e h

RowStep-IsAlive : (o p : Operation) → RowStep o p → IsAlive o → IsAlive p
RowStep-IsAlive o p s h =
    ap (lifecycle p.status) s.attempts ∙ lifecycle-next o.status p.status o.attempt s.along h

-- No two rows have one id.
abbrev pub UniqueIds : List Operation → Type 0
UniqueIds [] = Unit
UniqueIds (o ∷ os) = (find_op o.op_id os ≡ none) × UniqueIds os

module _ (id : String) (f : Operation → Operation)
    (keeps : (o : Operation) → identity (f o) ≡ identity o) where
  UniqueIds-update : (os : List Operation) → UniqueIds os → UniqueIds (update_op id f os)
  unfolding update_op
  UniqueIds-update [] h = tt
  UniqueIds-update (o ∷ os) h =
      let kept =
        find_op-update_none id f keeps (if o.op_id == id then f o else o).op_id os
          (ap (λ (t : String). find_op t os) (updated_id id f keeps o) ∙ h.0) in
      (kept, UniqueIds-update os h.1)

  -- an UPDATE of one row, with the predicate kept by that row
  All-update {ℓ} :
      (P : Operation → Type ℓ) (os : List Operation) (x : Operation)
      → UniqueIds os
      → find_op id os ≡ some x
      → (P x → P (f x))
      → All P os
      → All P (update_op id f os)
  unfolding update_op find_op
  All-update P [] x u found step h = cc
  All-update P (o ∷ os) x u found step h = elim (Bool-cases (o.op_id == id)) [
    | inl e ↦
        (let seen : some o ≡ some x = rw e at found in
          let same_row : x ≡ o = cc in
          let rest =
            update_op-absent id f os
              (ap (λ (t : String). find_op t os) (sym ((eq_iff o.op_id id).0 e)) ∙ u.0) in
          rw (e, rest)
            (subst (λ (t : Operation). P (f t)) same_row (step (subst P (sym same_row) h.0)), h.1))
    | inr e ↦ rw e (h.0, All-update P os x u.1 (rw e at found) step h.1)
  ]

head-apart :
    (x : Operation) (os : List Operation) (o : Operation)
    → find_op o.op_id (x ∷ os) ≡ none
    → (find_op o.op_id os ≡ none) × ((o.op_id == x.op_id) ≡ false)
unfolding find_op
head-apart x os o h = elim (Bool-cases (x.op_id == o.op_id)) [
  | inl e ↦ absurd (cc (rw e at h))
  | inr e ↦ (rw e at h, eq-ne o.op_id x.op_id (λ p. cc (e, (eq_iff x.op_id o.op_id).1 (sym p))))
]

UniqueIds-append :
    (os : List Operation) (o : Operation)
    → find_op o.op_id os ≡ none
    → UniqueIds os
    → UniqueIds (os ++ o ∷ [])
UniqueIds-append [] o h u = (unfold find_op in refl, tt)
UniqueIds-append (x ∷ os) o h u =
    let apart = head-apart x os o h in
    (
      find_op-append x.op_id os o u.0 ∙ ap (λ (b : Bool). if b then some o else none) apart.1,
      UniqueIds-append os o apart.0 u.1,
    )

All-append_one {ℓ} :
    (P : Operation → Type ℓ) (os : List Operation) (o : Operation)
    → All P os
    → P o
    → All P (os ++ o ∷ [])
All-append_one P [] o h p = (p, tt)
All-append_one P (x ∷ os) o h p = (h.0, All-append_one P os o h.1 p)

-- The invariant of the table.
pub record IsSound (os : List Operation) : Type 0 where
  pub unique : UniqueIds os
  pub alive : All IsAlive os

OpsStep-IsSound : {os ps : List Operation} → OpsStep os ps → IsSound os → IsSound ps
OpsStep-IsSound same h = h
OpsStep-IsSound (added {os = rows} o no_id no_key fresh never) h = record {
  unique = UniqueIds-append rows o no_id h.unique;
  alive = All-append_one IsAlive rows o h.alive (rw (fresh, never) (unfold lifecycle in refl));
}
OpsStep-IsSound (changed {os = rows} id f o found keeps step) h = record {
  unique = UniqueIds-update id f keeps rows h.unique;
  alive =
      All-update id f keeps IsAlive rows o h.unique found (RowStep-IsAlive o (f o) step) h.alive;
}

History-IsSound : {os ps : List Operation} → History os ps → IsSound os → IsSound ps
History-IsSound here h = h
History-IsSound (History.then past step) h = OpsStep-IsSound step (History-IsSound past h)

found-All {ℓ} :
    (P : Operation → Type ℓ) (id : String) (os : List Operation) (x : Operation)
    → All P os
    → find_op id os ≡ some x
    → P x
unfolding find_op
found-All P id [] x h found = absurd (cc)
found-All P id (o ∷ os) x h found = elim (Bool-cases (o.op_id == id)) [
  | inl e ↦
      (let seen : some o ≡ some x = rw e at found in
        let same_row : o ≡ x = cc in subst P same_row h.0)
  | inr e ↦ found-All P id os x h.1 (rw e at found)
]

-- After any sequence of calls on an empty journal the ids are unique, and each row has one of the
-- eight statuses with the attempts that go with it.
pub run_calls-IsSound :
    (rt : Runtime) (cs : List Call) → IsSound (run_calls rt cs empty_journal).ops
run_calls-IsSound rt cs =
    History-IsSound (run_calls-History rt cs empty_journal) (record { unique = tt; alive = tt })

started_is_not_waiting :
    (s : String)
    → contains ("running" ∷ "succeeded" ∷ []) s ≡ true
    → contains ("proposed" ∷ "pending_approval" ∷ "approved" ∷ "rejected" ∷ []) s ≡ false
started_is_not_waiting s h = elim (Bool-cases (s == "running")) [
  | inl e ↦ rw ((eq_iff s "running").0 e) refl
  | inr e ↦ elim (Bool-cases (s == "succeeded")) [
    | inl d ↦ rw ((eq_iff s "succeeded").0 d) refl
    | inr d ↦ absurd (cc (rw (e, d) at h))
  ]
]

lifecycle-bounds :
    (s : String) (n : ℕ)
    → lifecycle s n ≡ true
    → (n ≤ 1)
      × (contains ("running" ∷ "succeeded" ∷ []) s ≡ true → n ≡ 1)
      × (contains ("proposed" ∷ "pending_approval" ∷ "approved" ∷ "rejected" ∷ []) s ≡ true → n ≡ 0)
unfolding lifecycle
lifecycle-bounds s n h =
    (ground arith, λ e. ground (arith, started_is_not_waiting s e), ground arith)

-- An operation runs at most once: after any sequence of calls on an empty journal its attempts are
-- at most 1, they are 1 if it is running or has succeeded, and 0 while it waits for its approval or
-- its run, or has been rejected.
pub runs_at_most_once :
    (rt : Runtime) (cs : List Call) (id : String) (o : Operation)
    → find_op id (run_calls rt cs empty_journal).ops ≡ some o
    → (o.attempt ≤ 1)
      × (contains ("running" ∷ "succeeded" ∷ []) o.status ≡ true → o.attempt ≡ 1)
      × (contains ("proposed" ∷ "pending_approval" ∷ "approved" ∷ "rejected" ∷ []) o.status ≡ true
          → o.attempt ≡ 0)
runs_at_most_once rt cs id o found = lifecycle-bounds o.status o.attempt (
    found-All IsAlive id (run_calls rt cs empty_journal).ops o (run_calls-IsSound rt cs).alive
      found)
