-- ===== src/Journal/Lease.antt =====
-- Session leases of src/clawops/op_journal.py: `acquire_lease` and `release_lease`. The seconds
-- to live are a number: the code refuses a negative one as it refuses 0.
pub mod Exclusive
pub mod Protocol
use strongclaw.Prelude.{
  ℕ, ◌+◌, ◌*◌, String, ◌<>◌, Bool, true, false, ◌&&◌, ◌||◌, not, Option, none, some, List, [], ◌∷◌,
  ◌++◌, ◌==◌, leb, ltb, if◌then◌else◌, is_some,
}
use strongclaw.Prelude.Text.{show_nat, take_text}
use strongclaw.Value.{obj, Fields}
use strongclaw.Runtime.{Runtime}
use strongclaw.Result.{
  Result, ok, err, unknown_lease, bad_ttl, lease_conflict, integrity_error, row_missing, require,
  ◌>>=◌, ◌>>◌,
}
use strongclaw.Journal.Rows.{SessionLease, Journal}

pub record LeaseRequest : Type 0 where
  pub lock_identity : String
  pub session_identity : String
  pub backend : String
  pub project_id : String
  pub workspace_id : String
  pub lane : String
  pub role : String
  pub operation_kind : String
  pub holder : String
  pub ttl_seconds : ℕ
  pub metadata : Option Fields

-- lock_identity = ? AND released_at_ms IS NULL
abbrev pub is_unreleased : String → SessionLease → Bool
is_unreleased lock l = l.lock_identity == lock && not (is_some l.released_at_ms)

-- the first UPDATE of `acquire_lease`, on one row
unfoldable pub expire : ℕ → String → String → SessionLease → SessionLease
expire now lock by l =
    if is_unreleased lock l && leb l.expires_at_ms now
    then record l {
      updated_at_ms = now;
      released_at_ms = some now;
      released_by = some by;
      status = "expired";
    }
    else l

unfoldable pub expire_all : ℕ → String → String → List SessionLease → List SessionLease
unfolding expire
expire_all now lock by [] = []
expire_all now lock by (l ∷ ls) = expire now lock by l ∷ expire_all now lock by ls

-- SELECT * FROM session_lease WHERE lock_identity = ? AND released_at_ms IS NULL
unfoldable pub find_unreleased : String → List SessionLease → Option SessionLease
find_unreleased lock [] = none
find_unreleased lock (l ∷ ls) = if is_unreleased lock l then some l else find_unreleased lock ls

-- SELECT * FROM session_lease WHERE lease_id = ?
unfoldable pub find_lease : String → List SessionLease → Option SessionLease
find_lease id [] = none
find_lease id (l ∷ ls) = if l.lease_id == id then some l else find_lease id ls

-- INSERT INTO session_lease of a row that is not released: its PRIMARY KEY, and the unique index
-- `session_lease_active_lock_idx`
unfoldable pub insert_lease : SessionLease → List SessionLease → Result (List SessionLease)
insert_lease l ls =
    if is_some (find_lease l.lease_id ls) || is_some (find_unreleased l.lock_identity ls)
    then err integrity_error
    else ok (ls ++ l ∷ [])

unfoldable pub read_lease : Option SessionLease → Journal → Result (SessionLease × Journal)
read_lease none j = err row_missing
read_lease (some l) j = ok (l, j)

-- `if active is not None: raise LeaseConflictError`
unfoldable pub no_conflict : String → Option SessionLease → Result (Unit {0})
no_conflict lock none = ok tt
no_conflict lock (some active) = err (lease_conflict lock active.lease_id)

module _ (rt : Runtime) where
  unfoldable pub lease_id_at : ℕ → LeaseRequest → String
  lease_id_at now q =
      take_text 24
        (rt.sha256_hex (q.lock_identity <> ":" <> q.session_identity <> ":" <> show_nat now))

  unfoldable pub metadata_text : Option Fields → Option String
  metadata_text none = none
  metadata_text (some fs) = some (rt.canonical_json (obj fs))

  unfoldable pub new_lease : ℕ → LeaseRequest → SessionLease
  unfolding metadata_text
  new_lease now q = record {
    lease_id = lease_id_at now q;
    lock_identity = q.lock_identity;
    session_identity = q.session_identity;
    backend = q.backend;
    project_id = q.project_id;
    workspace_id = q.workspace_id;
    lane = q.lane;
    role = q.role;
    operation_kind = q.operation_kind;
    holder = q.holder;
    metadata_json = metadata_text q.metadata;
    created_at_ms = now;
    updated_at_ms = now;
    expires_at_ms = now + q.ttl_seconds * 1000;
    released_at_ms = none;
    released_by = none;
    status = "active";
  }

  unfoldable pub acquire_lease : ℕ → LeaseRequest → Journal → Result (SessionLease × Journal)
  unfolding read_lease no_conflict
  acquire_lease now q j = do
    require (ltb 0 q.ttl_seconds) bad_ttl
    let expired = expire_all now q.lock_identity q.session_identity j.leases
    no_conflict q.lock_identity (find_unreleased q.lock_identity expired)
    inserted ← insert_lease (new_lease now q) expired
    read_lease (find_lease (lease_id_at now q) inserted) (record j { leases = inserted })

-- the UPDATE of `release_lease`
unfoldable pub release_row : ℕ → String → SessionLease → SessionLease
release_row now by l = record l {
  updated_at_ms = now;
  released_at_ms = some now;
  released_by = some by;
  status = "released";
}

unfoldable pub release_all : ℕ → String → String → List SessionLease → List SessionLease
unfolding release_row
release_all now id by [] = []
release_all now id by (l ∷ ls) =
    (if l.lease_id == id then release_row now by l else l) ∷ release_all now id by ls

unfoldable pub known_lease : String → Option SessionLease → Result SessionLease
known_lease id none = err (unknown_lease id)
known_lease id (some l) = ok l

unfoldable pub release_lease : ℕ → String → String → Journal → Result (SessionLease × Journal)
unfolding known_lease read_lease
release_lease now id by j = do
  row ← known_lease id (find_lease id j.leases)
  let released = release_all now id by j.leases
  read_lease (find_lease id released) (record j { leases = released })
