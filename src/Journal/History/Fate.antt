-- ===== src/Journal/History/Fate.antt =====
-- What becomes of an operation over any sequence of calls of `OperationJournal`
-- (src/clawops/op_journal.py).
use strongclaw.Prelude.{
  String, ◌≡◌, refl, sym, ap, ◌∙◌, Bool, true, some, List, [], ◌∷◌, inl, inr, ◌==◌, eq_iff,
  Bool-cases, contains,
}
use strongclaw.Runtime.{Runtime}
use strongclaw.Journal.Rows.{Operation, Journal}
use strongclaw.Journal.Status.Edges.{
  Edge, deny, ask, allow, withdraw, refuse, approve_pending, fail_pending, cancel_pending,
  reject_pending, start, fail_approved, cancel_approved, succeed, fail_running, cancel_running,
}
use strongclaw.Journal.Tables.{find_op, update_op}
use strongclaw.Journal.Tables.Laws.{identity, find_op-append_old, find_op-update, find_op-update_ne}
use strongclaw.Journal.History.{RowStep, OpsStep, same, added, changed, History, here, then}
use strongclaw.Journal.History.Calls.{Call, run_calls, run_calls-History}

-- A way through the transition table.
pub data StatusPath (s : String) : String → Type 0 where
  stay : StatusPath s s
  move : {t u : String} → StatusPath s t → Edge t u → StatusPath s u

-- What an operation has become.
pub record Descends (o p : Operation) : Type 0 where
  pub same_identity : identity p ≡ identity o
  pub path : StatusPath o.status p.status

Descends-step : (o p q : Operation) → Descends o p → RowStep p q → Descends o q
Descends-step o p q d s = record {
  same_identity = s.same_identity ∙ d.same_identity;
  path = elim s.along [ inl e ↦ rw (← e) d.path | inr edge ↦ move d.path edge ];
}

follow_step :
    (id : String) {os ps : List Operation} (o p : Operation)
    → OpsStep os ps
    → find_op id os ≡ some p
    → Descends o p
    → (q : Operation) × (find_op id ps ≡ some q) × Descends o q
follow_step id {os} o p same found d = (p, found, d)
follow_step id {os} o p (added x a b c e) found d = (p, find_op-append_old id os x found, d)
follow_step id o p (changed {os = rows} at f x seen keeps moves) found d =
    elim (Bool-cases (at == id)) [
      | inl e ↦
          (let same_at : at ≡ id = (eq_iff at id).0 e in
            let here_too : some x ≡ some p =
              sym seen ∙ ap (λ (t : String). find_op t rows) same_at ∙ found in
            let same_row : x ≡ p = cc in
            let after = find_op-update at f keeps rows x seen in
            (
              f x,
              ap (λ (t : String). find_op t (update_op at f rows)) (sym same_at) ∙ after,
              Descends-step o x (f x) (rw same_row d) moves,
            ))
      | inr e ↦ (
        p,
        find_op-update_ne at f keeps id rows (λ same_at. cc (e, (eq_iff at id).1 same_at)) ∙ found,
        d,
      )
    ]

follow :
    (id : String) {os ps : List Operation} (o : Operation)
    → History os ps
    → find_op id os ≡ some o
    → (q : Operation) × (find_op id ps ≡ some q) × Descends o q
follow id o here found = (o, found, record { same_identity = refl; path = stay })
follow id o (then past step) found =
    let (p, seen, d) = follow id o past found in follow_step id o p step seen d

-- Over any sequence of calls an operation stays in the journal, keeps its columns of identity
-- (scope, key, kind, trust zone, target, digest of the inputs), and its status follows the table.
pub operation_persists :
    (rt : Runtime) (cs : List Call) (j : Journal) (id : String) (o : Operation)
    → find_op id j.ops ≡ some o
    → (p : Operation) × (find_op id (run_calls rt cs j).ops ≡ some p) × Descends o p
operation_persists rt cs j id o found = follow id o (run_calls-History rt cs j) found

abbrev pub is_terminal : String → Bool
is_terminal s = contains ("succeeded" ∷ "failed" ∷ "cancelled" ∷ "rejected" ∷ []) s

terminal_stuck : {s t : String} → is_terminal s ≡ true → Edge s t → ⊥
terminal_stuck h deny = cc
terminal_stuck h ask = cc
terminal_stuck h allow = cc
terminal_stuck h withdraw = cc
terminal_stuck h refuse = cc
terminal_stuck h approve_pending = cc
terminal_stuck h fail_pending = cc
terminal_stuck h cancel_pending = cc
terminal_stuck h reject_pending = cc
terminal_stuck h start = cc
terminal_stuck h fail_approved = cc
terminal_stuck h cancel_approved = cc
terminal_stuck h succeed = cc
terminal_stuck h fail_running = cc
terminal_stuck h cancel_running = cc

terminal_path : {s t : String} → is_terminal s ≡ true → StatusPath s t → t ≡ s
terminal_path h stay = refl
terminal_path h (move p e) = absurd (terminal_stuck (ap is_terminal (terminal_path h p) ∙ h) e)

-- An operation that has succeeded, failed, been cancelled or rejected keeps that status over every
-- sequence of calls.
pub terminal_is_final :
    (rt : Runtime) (cs : List Call) (j : Journal) (id : String) (o : Operation)
    → find_op id j.ops ≡ some o
    → is_terminal o.status ≡ true
    → (p : Operation) × (find_op id (run_calls rt cs j).ops ≡ some p) × (p.status ≡ o.status)
terminal_is_final rt cs j id o found h =
    let (p, seen, d) = operation_persists rt cs j id o found in (p, seen, terminal_path h d.path)
