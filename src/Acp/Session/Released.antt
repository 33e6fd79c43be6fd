-- ===== src/Acp/Session/Released.antt =====
-- The lease of a session of src/clawops/acp_runner.py after it.
use strongclaw.Prelude.{
  ℕ, String, ◌≡◌, refl, sym, ap, ◌∙◌, subst, Option, none, some, List, [], ◌∷◌, ◌==◌, Bool-cases,
  inl, inr, arith,
}
use strongclaw.Runtime.{Runtime}
use strongclaw.Result.{Result, ok, err, lease_conflict, >>=-eq-ok, ok-injective, Result-cases}
use strongclaw.Journal.Rows.{SessionLease, Journal}
use strongclaw.Journal.Lease.{
  find_lease, release_row, release_all, known_lease, read_lease, release_lease,
}
use strongclaw.Acp.Spec.{
  SessionSpec, preflight_errors, spec_session_identity, spec_lock_identity, lock_path,
}
use strongclaw.Acp.Session.{
  Worker, Ran, SessionSummary, AcpxResult, AcpxOutcome, finished, raised, failed_summary, conclude,
  session_summary_path, released, after_acpx, with_lease, locked_session, checked_session,
  identified, run_session,
}

abbrev released_at : Option SessionLease → Option ℕ
released_at none = none
released_at (some l) = l.released_at_ms

find_lease-release_all :
    (now : ℕ) (id by : String) (ls : List SessionLease) (l : SessionLease)
    → find_lease id (release_all now id by ls) ≡ some l
    → l.released_at_ms ≡ some now
unfolding find_lease release_all release_row
find_lease-release_all now id by [] l h = absurd (cc)
find_lease-release_all now id by (x ∷ ls) l h = elim (Bool-cases (x.lease_id == id)) [
  | inl e ↦ sym (ap released_at (rw (e, e) at h))
  | inr e ↦ find_lease-release_all now id by ls l (rw (e, e) at h)
]

-- A lease that stands in a journal as released at a time.
pub record IsReleased (later : ℕ) (id : String) (j : Journal) : Type 0 where
  pub lease : SessionLease
  pub found : find_lease id j.leases ≡ some lease
  pub at : lease.released_at_ms ≡ some later

read_lease-eq-ok :
    (o : Option SessionLease) (j : Journal) (r : SessionLease × Journal)
    → read_lease o j ≡ ok r
    → (o ≡ some r.0) × (r.1 ≡ j)
unfolding read_lease
read_lease-eq-ok none j r h = cc
read_lease-eq-ok (some l) j r h =
    let same = ok-injective h in
    (
      ap (λ (t : SessionLease × Journal). some t.0) same,
      sym (ap (λ (t : SessionLease × Journal). t.1) same),
    )

read_lease-IsReleased :
    (later : ℕ) (id by : String) (j : Journal) (r : SessionLease × Journal)
    → release_lease later id by j ≡ ok r
    → IsReleased later id r.1
unfolding release_lease
read_lease-IsReleased later id by j r h =
    let (row, known, rest) = >>=-eq-ok (known_lease id (find_lease id j.leases)) _ h in
    let (read, same) = read_lease-eq-ok _ _ r rest in
    record {
      lease = r.0;
      found = ap (λ (t : Journal). find_lease id t.leases) same ∙ read;
      at = find_lease-release_all later id by j.leases r.0 read;
    }

-- If this call returned a summary with a lease, then the lease is released.
abbrev Closes : ℕ → Ran SessionSummary → Type 0
Closes later ran =
    (summary : SessionSummary) (id : String)
    → ran.returned ≡ ok summary
    → summary.lease_id ≡ some id
    → IsReleased later id ran.journal

conclude-lease :
    (path : String) (s : SessionSpec) (lease : String) (r : AcpxResult)
    → (conclude path s lease r).lease_id ≡ some lease
unfolding conclude failed_summary
conclude-lease path s lease r = ground (arith)

some-injective : {a b : String} → some a ≡ some b → a ≡ b
some-injective e = cc

module _ (rt : Runtime) (w : Worker) where
  -- a summary that has no lease
  no_lease :
      (later : ℕ) (summary : SessionSummary) (j : Journal)
      → summary.lease_id ≡ none
      → Closes later (record { returned = ok summary; journal = j; runs = 0 })
  no_lease later summary j none_held other id same held = absurd (
      cc (
        ok-injective same,
        none_held,
        held,
        ap (λ (t : SessionSummary). t.lease_id) (ok-injective same),
      ))

  after_acpx-Closes :
      (later : ℕ) (s : SessionSpec) (session lease : String) (r : AcpxOutcome × Journal)
      → Closes later (after_acpx rt w later s session lease r)
  unfolding after_acpx released
  after_acpx-Closes later s session lease (raised e, j) summary id h held = absurd (cc)
  after_acpx-Closes later s session lease (finished r, j) summary id h held =
      elim (Result-cases (release_lease later lease session j)) [
        | inl (e, failed) ↦ absurd (let lost = rw failed at h in cc)
        | inr (l, done) ↦
            let same = ok-injective (rw done at h) in
            let named =
              sym (conclude-lease (session_summary_path w.started s) s lease r)
              ∙ ap (λ (t : SessionSummary). t.lease_id) same
              ∙ held in
            rw done (
              subst (λ t. IsReleased later t l.1) (some-injective named)
                (read_lease-IsReleased later lease session j l done))
      ]

  with_lease-Closes :
      (later : ℕ) (s : SessionSpec) (session : String) (j : Journal)
      (r : Result (SessionLease × Journal))
      → Closes later (with_lease rt w later s session j r)
  unfolding with_lease
  with_lease-Closes later s session j (ok l) = after_acpx-Closes later s session l.0.lease_id _
  with_lease-Closes later s session j (err (lease_conflict a b)) =
      no_lease later (failed_summary _ "lock_conflict" _) j (unfold failed_summary in refl)
  with_lease-Closes later s session j (err e) = λ summary id h held. absurd (cc)

  checked-Closes :
      (now later : ℕ) (errors : List String) (s : SessionSpec) (session lock : String) (j : Journal)
      → Closes later (checked_session rt w now later errors s session lock j)
  unfolding checked_session locked_session
  checked-Closes now later (e ∷ errors) s session lock j =
      no_lease later (failed_summary _ "preflight_failed" _) j (unfold failed_summary in refl)
  checked-Closes now later [] s session lock j =
      elim (Bool-cases (w.locked (lock_path rt s lock))) [
        | inl e ↦
            rw e (
              no_lease later (failed_summary _ "lock_conflict" _) j (unfold failed_summary in refl))
        | inr e ↦ rw e (with_lease-Closes later s session j _)
      ]

  identified-Closes :
      (now later : ℕ) (errors : List String) (s : SessionSpec) (session lock : Result String)
      (j : Journal)
      → Closes later (identified rt w now later errors s session lock j)
  unfolding identified
  identified-Closes now later errors s (err e) lock j = λ summary id h held. absurd (cc)
  identified-Closes now later errors s (ok session) (err e) j = λ summary id h held. absurd (cc)
  identified-Closes now later errors s (ok session) (ok lock) j =
      checked-Closes now later errors s session lock j

  -- If `run_session` returns a summary that names a lease, then the journal that it leaves has that
  -- lease, released at the time of the release.
  pub run_session-IsReleased :
      (now later : ℕ) (s : SessionSpec) (j : Journal) (summary : SessionSummary) (id : String)
      → (run_session rt w now later s j).returned ≡ ok summary
      → summary.lease_id ≡ some id
      → IsReleased later id (run_session rt w now later s j).journal
  unfolding run_session
  run_session-IsReleased now later s j =
      identified-Closes now later (preflight_errors rt w.host w.which s w.backend w.credentials) s
        (spec_session_identity s) (spec_lock_identity s) j
