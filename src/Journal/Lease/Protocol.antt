-- ===== src/Journal/Lease/Protocol.antt =====
-- Who holds a lock (src/clawops/op_journal.py): `acquire_lease` fails exactly while a lease of the
-- lock is unreleased and unexpired.
use strongclaw.Prelude.{
  ℕ, ◌+◌, ◌*◌, ◌≤◌, ◌<◌, String, ◌≡◌, refl, ap, ◌∙◌, ◌&&◌, Option, none, some, List, [], ◌∷◌, ◌++◌,
  arith, ◌==◌, eq_iff, eq_refl, ltb, lt→ltb, if◌then◌else◌, Bool-cases, inl, inr,
}
use strongclaw.Runtime.{Runtime}
use strongclaw.Result.{ok, err, lease_conflict}
use strongclaw.Journal.Rows.{SessionLease, Journal}
use strongclaw.Journal.Lease.{
  LeaseRequest, is_unreleased, expire_all, find_unreleased, find_lease, insert_lease, new_lease,
  lease_id_at, acquire_lease, release_all, release_lease,
}
use strongclaw.Journal.Lease.Exclusive.{
  IsExclusive, count_unreleased, acquire_lease-inv, release_lease-inv, count-release_all,
}

-- The lease that holds a lock at a time, if any: unreleased, and not yet expired.
unfoldable pub find_holder : ℕ → String → List SessionLease → Option SessionLease
find_holder now lock [] = none
find_holder now lock (l ∷ ls) =
    if is_unreleased lock l && ltb now l.expires_at_ms then some l else find_holder now lock ls

find_unreleased-expire_all :
    (now : ℕ) (lock by : String) (ls : List SessionLease)
    → find_unreleased lock (expire_all now lock by ls) ≡ find_holder now lock ls
unfolding find_unreleased expire_all find_holder
find_unreleased-expire_all now lock by [] = refl
find_unreleased-expire_all now lock by (l ∷ ls) =
    let rest = find_unreleased-expire_all now lock by ls in ground arith

find_lease-expire_all :
    (now : ℕ) (lock by id : String) (ls : List SessionLease)
    → find_lease id ls ≡ none
    → find_lease id (expire_all now lock by ls) ≡ none
unfolding find_lease expire_all
find_lease-expire_all now lock by id [] h = refl
find_lease-expire_all now lock by id (l ∷ ls) h =
    ground (arith, find_lease-expire_all now lock by id ls)

find_lease-append :
    (ls : List SessionLease) (l : SessionLease)
    → find_lease l.lease_id ls ≡ none
    → find_lease l.lease_id (ls ++ l ∷ []) ≡ some l
unfolding find_lease
find_lease-append [] l h = rw (eq_refl l.lease_id)
find_lease-append (x ∷ ls) l h = elim (Bool-cases (x.lease_id == l.lease_id)) [
  | inl e ↦ absurd (cc (rw e at h))
  | inr e ↦ rw e (find_lease-append ls l (rw e at h))
]

-- While a lease holds the lock, `acquire_lease` raises the conflict that names it.
pub acquire_lease-held :
    (rt : Runtime) (now : ℕ) (q : LeaseRequest) (j : Journal) (holder : SessionLease)
    → 0 < q.ttl_seconds
    → find_holder now q.lock_identity j.leases ≡ some holder
    → acquire_lease rt now q j ≡ err (lease_conflict q.lock_identity holder.lease_id)
unfolding acquire_lease
acquire_lease-held rt now q j holder positive held =
    let blocked =
      find_unreleased-expire_all now q.lock_identity q.session_identity j.leases ∙ held in
    rw (lt→ltb 0 q.ttl_seconds positive, blocked)

-- When none does and the new id is fresh, it returns the new lease.
pub acquire_lease-free :
    (rt : Runtime) (now : ℕ) (q : LeaseRequest) (j : Journal)
    → 0 < q.ttl_seconds
    → find_holder now q.lock_identity j.leases ≡ none
    → find_lease (lease_id_at rt now q) j.leases ≡ none
    → let expired = expire_all now q.lock_identity q.session_identity j.leases in
      acquire_lease rt now q j
      ≡ ok (new_lease rt now q, record j { leases = expired ++ new_lease rt now q ∷ [] })
unfolding acquire_lease insert_lease new_lease
acquire_lease-free rt now q j positive free fresh =
    let expired = expire_all now q.lock_identity q.session_identity j.leases in
    let open_lock =
      find_unreleased-expire_all now q.lock_identity q.session_identity j.leases ∙ free in
    let no_id =
      find_lease-expire_all now q.lock_identity q.session_identity (lease_id_at rt now q) j.leases
        fresh in
    let seen = find_lease-append expired (new_lease rt now q) no_id in
    rw (lt→ltb 0 q.ttl_seconds positive, open_lock, no_id, seen)

find_holder-append :
    (now : ℕ) (lock : String) (ls : List SessionLease) (l : SessionLease)
    → find_unreleased lock ls ≡ none
    → find_holder now lock (ls ++ l ∷ [])
      ≡ (if is_unreleased lock l && ltb now l.expires_at_ms then some l else none)
unfolding find_unreleased find_holder
find_holder-append now lock [] l h = refl
find_holder-append now lock (x ∷ ls) l h = elim (Bool-cases (is_unreleased lock x)) [
  | inl e ↦ absurd (cc (rw e at h))
  | inr e ↦ rw e (find_holder-append now lock ls l (rw e at h))
]

-- An acquired lease holds its lock until it expires.
pub acquire_lease-holds :
    (rt : Runtime) (now later : ℕ) (q : LeaseRequest) (j : Journal) (r : SessionLease × Journal)
    → acquire_lease rt now q j ≡ ok r
    → later < now + q.ttl_seconds * 1000
    → find_holder later q.lock_identity r.1.leases ≡ some (new_lease rt now q)
acquire_lease-holds rt now later q j r h early =
    let facts = acquire_lease-inv rt now q j r h in
    let expired = expire_all now q.lock_identity q.session_identity j.leases in
    let held = find_holder-append later q.lock_identity expired (new_lease rt now q) facts.2 in
    rw (facts.3, held)
      (unfold new_lease in
        rw (eq_refl q.lock_identity, lt→ltb later (now + q.ttl_seconds * 1000) early))

-- In the journal that the grant of a lease returns, every call for its lock with a positive time to
-- live, by any caller and at any time before the lease expires, raises the conflict that names the
-- lease.
pub acquire_lease-excludes :
    (rt : Runtime) (now later : ℕ) (q p : LeaseRequest) (j : Journal) (r : SessionLease × Journal)
    → acquire_lease rt now q j ≡ ok r
    → later < now + q.ttl_seconds * 1000
    → p.lock_identity ≡ q.lock_identity
    → 0 < p.ttl_seconds
    → acquire_lease rt later p r.1 ≡ err (lease_conflict q.lock_identity (lease_id_at rt now q))
acquire_lease-excludes rt now later q p j r h early same positive =
    let held = acquire_lease-holds rt now later q j r h early in
    let refused =
      acquire_lease-held rt later p r.1 (new_lease rt now q) positive
        (ap (λ (t : String). find_holder later t r.1.leases) same ∙ held) in
    refused
    ∙ ap (λ (t : String). err (lease_conflict t (new_lease rt now q).lease_id)) same
    ∙ (unfold new_lease in refl)

count-holder :
    (now at : ℕ) (lock by : String) (ls : List SessionLease) (l : SessionLease)
    → find_holder now lock ls ≡ some l
    → count_unreleased lock (release_all at l.lease_id by ls) + 1 ≤ count_unreleased lock ls
unfolding find_holder release_all count_unreleased
count-holder now at lock by [] l h = absurd (cc)
count-holder now at lock by (x ∷ ls) l h = ground (
  arith,
  eq_iff x.lease_id l.lease_id,
  count-release_all lock at l.lease_id by ls,
  count-holder now at lock by ls l,
)

none-of-count :
    (now : ℕ) (lock : String) (ls : List SessionLease)
    → count_unreleased lock ls ≡ 0
    → find_holder now lock ls ≡ none
unfolding find_holder count_unreleased
none-of-count now lock [] h = refl
none-of-count now lock (x ∷ ls) h = elim (Bool-cases (is_unreleased lock x)) [
  | inl e ↦ absurd (let some_left = rw e at h in omega arith)
  | inr e ↦ rw e (none-of-count now lock ls (rw e at h))
]

-- Releasing the lease that holds a lock frees the lock at once and for every later time.
pub release_lease-frees :
    (now at later : ℕ) (lock by : String) (j : Journal) (l : SessionLease)
    (r : SessionLease × Journal)
    → IsExclusive j
    → find_holder now lock j.leases ≡ some l
    → release_lease at l.lease_id by j ≡ ok r
    → find_holder later lock r.1.leases ≡ none
release_lease-frees now at later lock by j l r one held h =
    let facts = release_lease-inv at l.lease_id by j r h in
    let single = one lock in
    rw facts.0 (
      none-of-count later lock (release_all at l.lease_id by j.leases)
        (omega (arith, count-holder now at lock by j.leases l held)))
