-- ===== src/Journal/Lease/Exclusive.antt =====
-- At most one lease of a lock is unreleased (src/clawops/op_journal.py): what the partial unique
-- index demands holds after every call.
use strongclaw.Prelude.{
  ℕ, suc, ◌+◌, ◌≤◌, ◌<◌, ltb→lt, String, ◌≡◌, refl, sym, ap, ◌∙◌, Option, none, some, List, [], ◌∷◌,
  ◌++◌, arith, ◌==◌, eq_iff, ltb, if◌then◌else◌, Bool-cases, Option-cases, inl, inr,
}
use strongclaw.Runtime.{Runtime}
use strongclaw.Result.{ok, >>=-eq-ok, require-eq-ok, bad_ttl}
use strongclaw.Journal.Rows.{SessionLease, Journal}
use strongclaw.Journal.Lease.{
  LeaseRequest, is_unreleased, expire_all, find_unreleased, find_lease, insert_lease, read_lease,
  no_conflict, new_lease, lease_id_at, acquire_lease, release_all, known_lease, release_lease,
}

-- How many leases of a lock are unreleased.
unfoldable pub count_unreleased : String → List SessionLease → ℕ
count_unreleased lock [] = 0
count_unreleased lock (l ∷ ls) =
    if is_unreleased lock l then suc (count_unreleased lock ls) else count_unreleased lock ls

abbrev pub IsExclusive : Journal → Type 0
IsExclusive j = (lock : String) → count_unreleased lock j.leases ≤ 1

count-expire_all :
    (lock : String) (now : ℕ) (at by : String) (ls : List SessionLease)
    → count_unreleased lock (expire_all now at by ls) ≤ count_unreleased lock ls
unfolding count_unreleased expire_all
count-expire_all lock now at by [] = omega arith
count-expire_all lock now at by (l ∷ ls) = ground (arith, count-expire_all lock now at by ls)

pub count-release_all :
    (lock : String) (now : ℕ) (id by : String) (ls : List SessionLease)
    → count_unreleased lock (release_all now id by ls) ≤ count_unreleased lock ls
unfolding count_unreleased release_all
count-release_all lock now id by [] = omega arith
count-release_all lock now id by (l ∷ ls) = ground (arith, count-release_all lock now id by ls)

count-none :
    (lock : String) (ls : List SessionLease)
    → find_unreleased lock ls ≡ none
    → count_unreleased lock ls ≡ 0
unfolding count_unreleased find_unreleased
count-none lock [] h = refl
count-none lock (l ∷ ls) h = elim (Bool-cases (is_unreleased lock l)) [
  | inl e ↦ absurd (cc (rw e at h))
  | inr e ↦ rw e (count-none lock ls (rw e at h))
]

count-append :
    (lock : String) (ls : List SessionLease) (l : SessionLease)
    → count_unreleased lock (ls ++ l ∷ [])
      ≡ count_unreleased lock ls + (if is_unreleased lock l then 1 else 0)
unfolding count_unreleased
count-append lock [] l = ground arith
count-append lock (x ∷ ls) l = ground (arith, count-append lock ls l)

read_lease-leases :
    (found : Option SessionLease) (j : Journal) (r : SessionLease × Journal)
    → read_lease found j ≡ ok r
    → (found ≡ some r.0) × (r.1 ≡ j)
unfolding read_lease
read_lease-leases none j r h = absurd (cc)
read_lease-leases (some l) j r h =
    let p : (l, j) ≡ r = cc in
    (
      ap (λ (t : SessionLease × Journal). some t.0) p,
      ap (λ (t : SessionLease × Journal). t.1) (sym p),
    )

insert_lease-inv :
    (l : SessionLease) (ls ms : List SessionLease)
    → insert_lease l ls ≡ ok ms
    → (find_lease l.lease_id ls ≡ none)
      × (find_unreleased l.lock_identity ls ≡ none)
      × (ms ≡ ls ++ l ∷ [])
unfolding insert_lease
insert_lease-inv l ls ms h = elim (Option-cases (find_lease l.lease_id ls)) [
  | inl e ↦ elim (Option-cases (find_unreleased l.lock_identity ls)) [
    | inl d ↦ (let grown : ok (ls ++ l ∷ []) ≡ ok ms = rw (e, d) at h in (e, d, (cc)))
    | inr (p, d) ↦ absurd (cc (rw (e, d) at h))
  ]
  | inr (p, e) ↦ absurd (cc (rw e at h))
]

-- What a successful `acquire_lease` did to the table.
pub acquire_lease-inv :
    (rt : Runtime) (now : ℕ) (q : LeaseRequest) (j : Journal) (r : SessionLease × Journal)
    → acquire_lease rt now q j ≡ ok r
    → let expired = expire_all now q.lock_identity q.session_identity j.leases in
      (0 < q.ttl_seconds)
      × (find_lease (lease_id_at rt now q) expired ≡ none)
      × (find_unreleased q.lock_identity expired ≡ none)
      × (r.1.leases ≡ expired ++ new_lease rt now q ∷ [])
      × (find_lease (lease_id_at rt now q) (expired ++ new_lease rt now q ∷ []) ≡ some r.0)
      × (r.1.ops ≡ j.ops)
unfolding acquire_lease new_lease
acquire_lease-inv rt now q j r h =
    let expired = expire_all now q.lock_identity q.session_identity j.leases in
    let (positive, h₁) = require-eq-ok (ltb 0 q.ttl_seconds) bad_ttl _ h in
    let (u, free, h₂) =
      >>=-eq-ok (no_conflict q.lock_identity (find_unreleased q.lock_identity expired)) _ h₁ in
    let (ms, inserted, h₃) = >>=-eq-ok (insert_lease (new_lease rt now q) expired) _ h₂ in
    let (no_id, no_lock, grown) = insert_lease-inv (new_lease rt now q) expired ms inserted in
    let (seen, same) =
      read_lease-leases (find_lease (lease_id_at rt now q) ms) (record j { leases = ms }) r h₃ in
    (
      ltb→lt 0 q.ttl_seconds positive,
      no_id,
      no_lock,
      ap (λ (t : Journal). t.leases) same ∙ grown,
      ap (find_lease (lease_id_at rt now q)) (sym grown) ∙ seen,
      ap (λ (t : Journal). t.ops) same,
    )

-- What a successful `release_lease` did to the table.
pub release_lease-inv :
    (now : ℕ) (id by : String) (j : Journal) (r : SessionLease × Journal)
    → release_lease now id by j ≡ ok r
    → (r.1.leases ≡ release_all now id by j.leases) × (r.1.ops ≡ j.ops)
unfolding release_lease
release_lease-inv now id by j r h =
    let (row, known, h₁) = >>=-eq-ok (known_lease id (find_lease id j.leases)) _ h in
    let released = release_all now id by j.leases in
    let (seen, same) =
      read_lease-leases (find_lease id released) (record j { leases = released }) r h₁ in
    (ap (λ (t : Journal). t.leases) same, ap (λ (t : Journal). t.ops) same)

-- `acquire_lease` keeps every lock at one unreleased lease at most.
pub acquire_lease-IsExclusive :
    (rt : Runtime) (now : ℕ) (q : LeaseRequest) (j : Journal) (r : SessionLease × Journal)
    → IsExclusive j
    → acquire_lease rt now q j ≡ ok r
    → IsExclusive r.1
acquire_lease-IsExclusive rt now q j r one h lock =
    let facts = acquire_lease-inv rt now q j r h in
    let expired = expire_all now q.lock_identity q.session_identity j.leases in
    let fewer = count-expire_all lock now q.lock_identity q.session_identity j.leases in
    let grown = count-append lock expired (new_lease rt now q) in
    rw (facts.3, grown)
      (elim (Bool-cases (q.lock_identity == lock)) [
        | inl e ↦
            (let none_left : count_unreleased lock expired ≡ 0 = count-none lock expired (
                ap (λ (t : String). find_unreleased t expired)
                  (sym ((eq_iff q.lock_identity lock).0 e))
                ∙ facts.2) in
              unfold new_lease in rw (e, none_left) (omega arith))
        | inr e ↦ (let old = one lock in unfold new_lease in rw e (omega arith))
      ])

-- So does `release_lease`.
pub release_lease-IsExclusive :
    (now : ℕ) (id by : String) (j : Journal) (r : SessionLease × Journal)
    → IsExclusive j
    → release_lease now id by j ≡ ok r
    → IsExclusive r.1
release_lease-IsExclusive now id by j r one h lock =
    let facts = release_lease-inv now id by j r h in
    let old = one lock in rw facts.0 (omega (arith, count-release_all lock now id by j.leases))
