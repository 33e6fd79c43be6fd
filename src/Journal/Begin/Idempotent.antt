-- ===== src/Journal/Begin/Idempotent.antt =====
-- `begin` of src/clawops/op_journal.py finds again what it has started.
use strongclaw.Prelude.{
  ℕ, String, ◌≡◌, sym, ap, ◌∙◌, Bool, ◌&&◌, none, some, List, [], ◌∷◌, ◌++◌, ◌==◌, eq_refl,
  if◌then◌else◌, Bool-cases, Option-cases, inl, inr,
}
use strongclaw.Runtime.{Runtime}
use strongclaw.Result.{ok, >>=-eq-ok, ok-injective}
use strongclaw.Journal.Rows.{Operation, Journal}
use strongclaw.Journal.Tables.{find_op, find_key, insert_op, read_back}
use strongclaw.Journal.Tables.Laws.{find_op-append, insert_op-inv}
use strongclaw.Journal.Begin.{Request, idempotency_key, op_id_at, new_row, create, begin}

find_key-append :
    (os : List Operation) (o : Operation)
    → find_key o.scope o.idempotency_key os ≡ none
    → find_key o.scope o.idempotency_key (os ++ o ∷ []) ≡ some o
unfolding find_key
find_key-append [] o h = rw (eq_refl o.scope, eq_refl o.idempotency_key)
find_key-append (x ∷ os) o h =
    elim (Bool-cases (x.scope == o.scope && x.idempotency_key == o.idempotency_key)) [
      | inl e ↦ absurd (cc (rw e at h))
      | inr e ↦ rw e (find_key-append os o (rw e at h))
    ]

-- A row with a fresh id and a fresh key is created as it stands.
pub create-fresh :
    (rt : Runtime) (o : Operation) (j : Journal)
    → find_op o.op_id j.ops ≡ none
    → find_key o.scope o.idempotency_key j.ops ≡ none
    → create rt o j ≡ ok (o, record j { ops = j.ops ++ o ∷ [] })
unfolding create insert_op read_back
create-fresh rt o j no_id no_key =
    let seen : find_op o.op_id (j.ops ++ o ∷ []) ≡ some o =
      find_op-append o.op_id j.ops o no_id
      ∙ ap (λ (b : Bool). if b then some o else none) (eq_refl o.op_id) in
    rw (no_id, no_key, seen)

-- A new request with a fresh id starts a proposed operation that has never run, and leaves the rows
-- before it alone.
pub begin_new :
    (rt : Runtime) (now : ℕ) (q : Request) (j : Journal)
    → find_key q.scope (idempotency_key rt q) j.ops ≡ none
    → find_op (op_id_at rt now q) j.ops ≡ none
    → begin rt now q j ≡ ok (new_row rt now q, record j { ops = j.ops ++ new_row rt now q ∷ [] })
unfolding begin new_row
begin_new rt now q j no_key no_id = rw no_key (create-fresh rt (new_row rt now q) j no_id no_key)

-- The parts of a request that its key depends on.
pub record SameWork (p q : Request) : Type 0 where
  pub same_scope : p.scope ≡ q.scope
  pub same_kind : p.kind ≡ q.kind
  pub same_target : p.normalized_target ≡ q.normalized_target
  pub same_inputs : p.inputs ≡ q.inputs

idempotency_key-SameWork :
    (rt : Runtime) (p q : Request) → SameWork p q → idempotency_key rt p ≡ idempotency_key rt q
unfolding idempotency_key
idempotency_key-SameWork rt p q s = cc

known-begin :
    (rt : Runtime) (now : ℕ) (q : Request) (j : Journal) (o : Operation)
    → find_key q.scope (idempotency_key rt q) j.ops ≡ some o
    → begin rt now q j ≡ ok (o, j)
unfolding begin
known-begin rt now q j o h = rw h

created-inv :
    (rt : Runtime) (o : Operation) (j : Journal) (r : Operation × Journal)
    → create rt o j ≡ ok r
    → (os : List Operation) × (insert_op o j.ops ≡ ok os)
      × (read_back (find_op o.op_id os) (record j { ops = os }) ≡ ok r)
unfolding create
created-inv rt o j r h = >>=-eq-ok (insert_op o j.ops) _ h

begin-known :
    (rt : Runtime) (now : ℕ) (q : Request) (j : Journal) (r : Operation × Journal)
    → begin rt now q j ≡ ok r
    → find_key q.scope (idempotency_key rt q) r.1.ops ≡ some r.0
unfolding begin
begin-known rt now q j r h = elim (Option-cases (find_key q.scope (idempotency_key rt q) j.ops)) [
  | inl no_key ↦
      (let created : create rt (new_row rt now q) j ≡ ok r = rw no_key at h in
        let (os, inserted, read) = created-inv rt (new_row rt now q) j r created in
        let (no_id, no_same, grown) = insert_op-inv (new_row rt now q) j.ops os inserted in
        let p : (new_row rt now q, record j { ops = j.ops ++ new_row rt now q ∷ [] }) ≡ r =
          ok-injective (sym (create-fresh rt (new_row rt now q) j no_id no_same) ∙ created) in
        rw (← p) (unfold new_row in find_key-append j.ops (new_row rt now q) no_same))
  | inr (o, known) ↦
      (let p : (o, j) ≡ r = ok-injective (sym (known-begin rt now q j o known) ∙ h) in
        rw (← p) known)
]

-- A request that does the same work as one that has been begun gets the same operation, at any later
-- time and whatever its trust zone, and changes nothing.
pub begin_again :
    (rt : Runtime) (now later : ℕ) (q p : Request) (j : Journal) (r : Operation × Journal)
    → begin rt now q j ≡ ok r
    → SameWork p q
    → begin rt later p r.1 ≡ ok r
begin_again rt now later q p j r h s = known-begin rt later p r.1 r.0 (
    ap (λ (t : String). find_key t (idempotency_key rt p) r.1.ops) s.same_scope
    ∙ ap (λ (t : String). find_key q.scope t r.1.ops) (idempotency_key-SameWork rt p q s)
    ∙ begin-known rt now q j r h)
