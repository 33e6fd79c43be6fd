-- ===== src/Acp/Session/Guarded.antt =====
-- What guards a session of src/clawops/acp_runner.py, and what it leaves behind.
use strongclaw.Prelude.{
  ℕ, ◌<◌, String, false, ◌≡◌, refl, some, List, [], ◌∷◌, Bool-cases, inl, inr, arith,
}
use strongclaw.Runtime.{Runtime}
use strongclaw.Result.{Result, ok, err, lease_conflict, Result-cases}
use strongclaw.Journal.Rows.{SessionLease, Journal}
use strongclaw.Journal.Lease.{acquire_lease}
use strongclaw.Journal.Lease.Protocol.{find_holder, acquire_lease-held}
use strongclaw.Acp.Spec.{
  SessionSpec, preflight_errors, spec_session_identity, spec_lock_identity, lock_path,
}
use strongclaw.Acp.Session.{
  Worker, Ran, SessionSummary, failed_summary, with_lease, lease_request, locked_session,
  join_errors, checked_session, identified, run_session,
}

-- A session that did not call acpx, left the journal as it was, and is reported as not ok.
pub record Refused (j : Journal) (ran : Ran SessionSummary) : Type 0 where
  pub runs : ran.runs ≡ 0
  pub journal : ran.journal ≡ j
  pub summary : SessionSummary
  pub reported : ran.returned ≡ ok summary
  pub not_ok : summary.ok ≡ false

module _ (rt : Runtime) (w : Worker) where
  checked_session-Refused :
      (now later : ℕ) (errors : List String) (s : SessionSpec) (session lock : String) (j : Journal)
      (holder : SessionLease)
      → 0 < s.ttl_seconds
      → find_holder now lock j.leases ≡ some holder
      → Refused j (checked_session rt w now later errors s session lock j)
  unfolding checked_session locked_session with_lease lease_request
  checked_session-Refused now later (e ∷ errors) s session lock j holder positive held =
      unfold failed_summary in
      record {
        runs = refl;
        journal = refl;
        summary = failed_summary _ "preflight_failed" (join_errors rt w (e ∷ errors));
        reported = refl;
        not_ok = refl;
      }
  checked_session-Refused now later [] s session lock j holder positive held =
      elim (Bool-cases (w.locked (lock_path rt s lock))) [
        | inl e ↦ rw e (
            unfold failed_summary in
            record { runs = refl; journal = refl; summary = _; reported = refl; not_ok = refl })
        | inr e ↦
            rw
              (
                e,
                acquire_lease-held rt now (lease_request rt w s session lock) j holder positive
                    held,
              )
              (unfold failed_summary in
                record { runs = refl; journal = refl; summary = _; reported = refl; not_ok = refl })
      ]

  -- While a lease holds the lock of a session whose time to live is positive, `run_session` does not
  -- call acpx, leaves the journal as it was, and reports a session that is not ok.
  pub run_session-Refused :
      (now later : ℕ) (s : SessionSpec) (session lock : String) (j : Journal)
      (holder : SessionLease)
      → spec_session_identity s ≡ ok session
      → spec_lock_identity s ≡ ok lock
      → 0 < s.ttl_seconds
      → find_holder now lock j.leases ≡ some holder
      → Refused j (run_session rt w now later s j)
  unfolding run_session identified
  run_session-Refused now later s session lock j holder es el positive held =
      rw (es, el)
        (checked_session-Refused now later
          (preflight_errors rt w.host w.which s w.backend w.credentials) s session lock j holder
          positive held)

  -- What a call of acpx needs: no error before it, the lock file, and a lease.
  pub record Granted (now : ℕ) (s : SessionSpec) (j : Journal) : Type 0 where
    pub session : String
    pub lock : String
    pub lease : SessionLease × Journal
    pub named : spec_session_identity s ≡ ok session
    pub locks : spec_lock_identity s ≡ ok lock
    pub checked : preflight_errors rt w.host w.which s w.backend w.credentials ≡ []
    pub free : w.locked (lock_path rt s lock) ≡ false
    pub acquired : acquire_lease rt now (lease_request rt w s session lock) j ≡ ok lease

  with_lease-runs :
      (later : ℕ) (s : SessionSpec) (session : String) (j : Journal)
      (r : Result (SessionLease × Journal))
      → (with_lease rt w later s session j r).runs ≡ 1
      → (l : SessionLease × Journal) × (r ≡ ok l)
  unfolding with_lease
  with_lease-runs later s session j (ok l) h = (l, refl)
  with_lease-runs later s session j (err (lease_conflict a b)) h = absurd (omega arith)
  with_lease-runs later s session j (err e) h = absurd (omega arith)

  checked-runs :
      (now later : ℕ) (errors : List String) (s : SessionSpec) (session lock : String) (j : Journal)
      → (checked_session rt w now later errors s session lock j).runs ≡ 1
      → (errors ≡ [])
        × (w.locked (lock_path rt s lock) ≡ false)
        × (l : SessionLease × Journal) × (acquire_lease rt now (lease_request rt w s session lock) j
            ≡ ok l)
  unfolding checked_session locked_session
  checked-runs now later (e ∷ errors) s session lock j h = absurd (omega arith)
  checked-runs now later [] s session lock j h =
      elim (Bool-cases (w.locked (lock_path rt s lock))) [
        | inl e ↦ absurd (let none_ran = rw e at h in omega arith)
        | inr e ↦
            let (l, got) = with_lease-runs later s session j _ (rw e at h) in (refl, e, l, got)
      ]

  -- If `run_session` called acpx, then its preflight found no error, no other process had the lock
  -- file, and the journal granted it the lease of its lock.
  pub run_session-Granted :
      (now later : ℕ) (s : SessionSpec) (j : Journal)
      → (run_session rt w now later s j).runs ≡ 1
      → Granted now s j
  unfolding run_session identified
  run_session-Granted now later s j h = elim (Result-cases (spec_session_identity s)) [
    | inl (e, es) ↦ absurd (let none_ran = rw es at h in omega arith)
    | inr (session, es) ↦ elim (Result-cases (spec_lock_identity s)) [
      | inl (e, el) ↦ absurd (let none_ran = rw (es, el) at h in omega arith)
      | inr (lock, el) ↦
          let (checked, free, l, got) =
            checked-runs now later _ s session lock j (rw (es, el) at h) in
          record {
            session = session;
            lock = lock;
            lease = l;
            named = es;
            locks = el;
            checked = checked;
            free = free;
            acquired = got;
          }
    ]
  ]
