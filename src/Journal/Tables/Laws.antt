-- ===== src/Journal/Tables/Laws.antt =====
-- Laws of SELECT, UPDATE and INSERT on the table `op` (src/clawops/op_journal.py).
use strongclaw.Prelude.{
  String, ◌≡◌, ◌≢◌, refl, sym, ap, ◌∙◌, Bool, false, ◌&&◌, inl, inr, Option, none, some, List, [],
  ◌∷◌, ◌++◌, ◌==◌, eq_iff, eq-ne, if◌then◌else◌, Bool-cases, Option-cases,
}
use strongclaw.Result.{ok}
use strongclaw.Journal.Rows.{Operation, Journal}
use strongclaw.Journal.Tables.{find_op, find_key, update_op, insert_op, write_op}

pub find_op-append :
    (id : String) (os : List Operation) (o : Operation)
    → find_op id os ≡ none
    → find_op id (os ++ o ∷ []) ≡ (if o.op_id == id then some o else none)
unfolding find_op
find_op-append id [] o h = refl
find_op-append id (x ∷ os) o h = elim (Bool-cases (x.op_id == id)) [
  | inl e ↦ cc (rw e at h)
  | inr e ↦ rw e (find_op-append id os o (rw e at h))
]

pub find_op-append_old :
    (id : String) (os : List Operation) (o : Operation) {x : Operation}
    → find_op id os ≡ some x
    → find_op id (os ++ o ∷ []) ≡ some x
unfolding find_op
find_op-append_old id [] o h = cc
find_op-append_old id (y ∷ os) o h = elim (Bool-cases (y.op_id == id)) [
  | inl e ↦ rw e (rw e at h)
  | inr e ↦ rw e (find_op-append_old id os o (rw e at h))
]

pub find_op-op_id :
    (id : String) (os : List Operation) (x : Operation) → find_op id os ≡ some x → x.op_id ≡ id
unfolding find_op
find_op-op_id id [] x h = cc
find_op-op_id id (y ∷ os) x h = elim (Bool-cases (y.op_id == id)) [
  | inl e ↦
      (let found : some y ≡ some x = rw e at h in
        let same : x ≡ y = cc in ap (λ (o : Operation). o.op_id) same ∙ (eq_iff y.op_id id).0 e)
  | inr e ↦ find_op-op_id id os x (rw e at h)
]

-- The columns that no UPDATE names.
pub record Identity : Type 0 where
  pub op_id : String
  pub scope : String
  pub idempotency_key : String
  pub kind : String
  pub trust_zone : String
  pub normalized_target : String
  pub inputs_hash : String

abbrev pub identity : Operation → Identity
identity o = record {
  op_id = o.op_id;
  scope = o.scope;
  idempotency_key = o.idempotency_key;
  kind = o.kind;
  trust_zone = o.trust_zone;
  normalized_target = o.normalized_target;
  inputs_hash = o.inputs_hash;
}

-- An UPDATE that leaves those columns alone, seen by each SELECT.
module _ (id : String) (f : Operation → Operation)
    (keeps : (o : Operation) → identity (f o) ≡ identity o) where
  keeps-op_id : (o : Operation) → (f o).op_id ≡ o.op_id
  keeps-op_id o = ap (λ (t : Identity). t.op_id) (keeps o)

  keeps-scope : (o : Operation) → (f o).scope ≡ o.scope
  keeps-scope o = ap (λ (t : Identity). t.scope) (keeps o)

  keeps-key : (o : Operation) → (f o).idempotency_key ≡ o.idempotency_key
  keeps-key o = ap (λ (t : Identity). t.idempotency_key) (keeps o)

  keeps-id_test :
      {b : Bool} (o : Operation) (other : String)
      → (o.op_id == other) ≡ b
      → ((f o).op_id == other) ≡ b
  keeps-id_test o other e = ap (λ (t : String). t == other) (keeps-op_id o) ∙ e

  keeps-key_test :
      {b : Bool} (o : Operation) (scope key : String)
      → (o.scope == scope && o.idempotency_key == key) ≡ b
      → ((f o).scope == scope && (f o).idempotency_key == key) ≡ b
  keeps-key_test o scope key e = cc (keeps-scope o, keeps-key o)

  pub find_op-update :
      (os : List Operation) (x : Operation)
      → find_op id os ≡ some x
      → find_op id (update_op id f os) ≡ some (f x)
  unfolding find_op update_op
  find_op-update [] x h = cc
  find_op-update (o ∷ os) x h = elim (Bool-cases (o.op_id == id)) [
    | inl e ↦
        (let same : some o ≡ some x = rw e at h in let fe = keeps-id_test o id e in rw (e, fe) (cc))
    | inr e ↦ rw (e, e) (find_op-update os x (rw e at h))
  ]

  pub updated_id : (o : Operation) → (if o.op_id == id then f o else o).op_id ≡ o.op_id
  updated_id o = elim (Bool-cases (o.op_id == id)) [
    | inl e ↦ ap (λ (b : Bool). (if b then f o else o).op_id) e ∙ keeps-op_id o
    | inr e ↦ ap (λ (b : Bool). (if b then f o else o).op_id) e
  ]

  pub find_op-update_none :
      (other : String) (os : List Operation)
      → find_op other os ≡ none
      → find_op other (update_op id f os) ≡ none
  unfolding find_op update_op
  find_op-update_none other [] h = refl
  find_op-update_none other (o ∷ os) h = elim (Bool-cases (o.op_id == other)) [
    | inl e ↦ absurd (cc (rw e at h))
    | inr e ↦
        (let q : ((if o.op_id == id then f o else o).op_id == other) ≡ false =
            ap (λ (t : String). t == other) (updated_id o) ∙ e in
          rw q (find_op-update_none other os (rw e at h)))
  ]

  pub find_op-update_ne :
      (other : String) (os : List Operation)
      → id ≢ other
      → find_op other (update_op id f os) ≡ find_op other os
  unfolding find_op update_op
  find_op-update_ne other [] h = refl
  find_op-update_ne other (o ∷ os) h = elim (Bool-cases (o.op_id == id)) [
    | inl e ↦
        (let p : o.op_id ≡ id = (eq_iff o.op_id id).0 e in
          let q : (o.op_id == other) ≡ false = eq-ne o.op_id other (λ r. h (sym p ∙ r)) in
          let fq = keeps-id_test o other q in rw (e, fq, q) (find_op-update_ne other os h))
    | inr e ↦ rw e (
        ap (λ (t : Option Operation). if o.op_id == other then some o else t)
          (find_op-update_ne other os h))
  ]

  pub find_key-update_none :
      (scope key : String) (os : List Operation)
      → find_key scope key os ≡ none
      → find_key scope key (update_op id f os) ≡ none
  unfolding find_key update_op
  find_key-update_none scope key [] h = refl
  find_key-update_none scope key (o ∷ os) h =
      elim (Bool-cases (o.scope == scope && o.idempotency_key == key)) [
        | inl e ↦ cc (rw e at h)
        | inr e ↦ elim (Bool-cases (o.op_id == id)) [
          | inl d ↦
              rw (d, keeps-key_test o scope key e) (find_key-update_none scope key os (rw e at h))
          | inr d ↦ rw (d, e) (find_key-update_none scope key os (rw e at h))
        ]
      ]

-- A SELECT by id that finds nothing: the UPDATE changes no row.
pub update_op-absent :
    (id : String) (f : Operation → Operation) (os : List Operation)
    → find_op id os ≡ none
    → update_op id f os ≡ os
unfolding find_op update_op
update_op-absent id f [] h = refl
update_op-absent id f (o ∷ os) h = elim (Bool-cases (o.op_id == id)) [
  | inl e ↦ cc (rw e at h)
  | inr e ↦ rw e (ap (λ (t : List Operation). o ∷ t) (update_op-absent id f os (rw e at h)))
]

-- The call that writes and reads back returns the new row, and changes the table by the UPDATE.
pub write_op_lem :
    (id : String) (f : Operation → Operation)
    → ((o : Operation) → identity (f o) ≡ identity o)
    → (j : Journal) (x : Operation) → find_op id j.ops ≡ some x
    → write_op id f j ≡ ok (f x, record j { ops = update_op id f j.ops })
unfolding write_op
write_op_lem id f keeps j x h = rw (find_op-update id f keeps j.ops x h)

-- What a successful INSERT found and did.
pub insert_op-inv :
    (o : Operation) (os ps : List Operation)
    → insert_op o os ≡ ok ps
    → (find_op o.op_id os ≡ none)
      × (find_key o.scope o.idempotency_key os ≡ none)
      × (ps ≡ os ++ o ∷ [])
unfolding insert_op
insert_op-inv o os ps h = elim (Option-cases (find_op o.op_id os)) [
  | inl e ↦ elim (Option-cases (find_key o.scope o.idempotency_key os)) [
    | inl d ↦ (let grown : ok (os ++ o ∷ []) ≡ ok ps = rw (e, d) at h in (e, d, (cc)))
    | inr (p, d) ↦ absurd (cc (rw (e, d) at h))
  ]
  | inr (p, e) ↦ absurd (cc (rw e at h))
]
