-- ===== src/Acp/Session/Finishes.antt =====
-- A session of src/clawops/acp_runner.py whose call of acpx comes back.
use strongclaw.Prelude.{
  ℕ, String, Bool, false, ◌≡◌, refl, sym, ap, ◌∙◌, Option, none, some, List, [], ◌∷◌, ◌==◌,
  Bool-cases, inl, inr, if◌then◌else◌, subst,
}
use strongclaw.Runtime.{Runtime}
use strongclaw.Result.{Result, ok}
use strongclaw.Journal.Rows.{SessionLease, Journal}
use strongclaw.Journal.Lease.{
  find_lease, release_row, release_all, known_lease, read_lease, release_lease,
}
use strongclaw.Acp.Spec.{
  SessionSpec, preflight_errors, spec_lock_identity, command, build_invocation,
}
use strongclaw.Acp.Session.{
  Worker, Ran, SessionSummary, AcpxResult, AcpxOutcome, finished, conclude, session_summary_path,
  released, after_acpx, with_lease, locked_session, checked_session, identified, run_session,
}
use strongclaw.Acp.Session.Guarded.{Granted}
use strongclaw.Acp.Session.Released.{IsReleased}

-- the lease that was found, or another
abbrev row_or : SessionLease → Option SessionLease → SessionLease
row_or x none = x
row_or x (some l) = l

if_free {ℓ} : {A : Type ℓ} {test : Bool} → test ≡ false → (m n : A) → (if test then m else n) ≡ n
if_free {test} e m n = rw e refl

find_lease-release_row :
    (now : ℕ) (id by : String) (ls : List SessionLease) (l : SessionLease)
    → find_lease id ls ≡ some l
    → find_lease id (release_all now id by ls) ≡ some (release_row now by l)
unfolding find_lease release_all release_row
find_lease-release_row now id by [] l h = absurd (cc)
find_lease-release_row now id by (x ∷ ls) l h = elim (Bool-cases (x.lease_id == id)) [
  | inl e ↦
      rw (e, e)
        (ap (λ (o : Option SessionLease). some (release_row now by (row_or x o))) (rw e at h))
  | inr e ↦ rw (e, e) (find_lease-release_row now id by ls l (rw e at h))
]

-- The journal after the release of a lease.
abbrev after_release : ℕ → String → String → Journal → Journal
after_release now id by j = record j { leases = release_all now id by j.leases }

release_lease_lem :
    (now : ℕ) (id by : String) (j : Journal) (l : SessionLease)
    → find_lease id j.leases ≡ some l
    → release_lease now id by j ≡ ok (release_row now by l, after_release now id by j)
unfolding release_lease known_lease read_lease
release_lease_lem now id by j l found =
    rw (found, find_lease-release_row now id by j.leases l found) refl

module _ (rt : Runtime) (w : Worker) (now later : ℕ) (s : SessionSpec) (j : Journal)
    (g : Granted rt w now s j) where
  -- what remains of a session that is granted its lease
  granted_session :
      run_session rt w now later s j
      ≡ after_acpx rt w later s g.session g.lease.0.lease_id
          (w.acpx (command (build_invocation w.backend s)) g.lease.1)
  unfolding run_session identified checked_session locked_session with_lease
  granted_session =
      ap
        (λ (r : Result String).
          identified rt w now later (preflight_errors rt w.host w.which s w.backend w.credentials) s
            r (spec_lock_identity s) j)
        g.named
      ∙ ap
          (λ (r : Result String).
            identified rt w now later (preflight_errors rt w.host w.which s w.backend w.credentials)
              s (ok g.session) r j)
          g.locks
      ∙ ap (λ (errors : List String). checked_session rt w now later errors s g.session g.lock j)
          g.checked
      ∙ if_free g.free _ _
      ∙ ap (λ (r : Result (SessionLease × Journal)). with_lease rt w later s g.session j r)
          g.acquired

  -- A session that is granted its lease, and whose call of acpx comes back while the journal still
  -- has the lease: it returns the summary of that result, and the journal has the lease released at
  -- the time of the release.
  pub run_session_finishes :
      (r : AcpxResult) (j' : Journal) (l : SessionLease)
      → w.acpx (command (build_invocation w.backend s)) g.lease.1 ≡ (finished r, j')
      → find_lease g.lease.0.lease_id j'.leases ≡ some l
      → ((run_session rt w now later s j).returned
          ≡ ok (conclude (session_summary_path w.started s) s g.lease.0.lease_id r))
        × IsReleased later g.lease.0.lease_id (run_session rt w now later s j).journal
  unfolding after_acpx released
  run_session_finishes r j' l back kept =
      let id = g.lease.0.lease_id in
      let all =
        granted_session
        ∙ ap (λ (o : AcpxOutcome × Journal). after_acpx rt w later s g.session id o) back
        ∙ ap
            (λ (o : Result (SessionLease × Journal)).
              released rt w (conclude (session_summary_path w.started s) s id r) j' o)
            (release_lease_lem later id g.session j' l kept) in
      (
        ap (λ (ran : Ran SessionSummary). ran.returned) all,
        subst (λ (t : Journal). IsReleased later id t)
            (sym (ap (λ (ran : Ran SessionSummary). ran.journal) all))
            (record {
              lease = release_row later g.session l;
              found = find_lease-release_row later id g.session j'.leases l kept;
              at = unfold release_row in refl;
            }),
      )
