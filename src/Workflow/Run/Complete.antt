-- ===== src/Workflow/Run/Complete.antt =====
-- What the results of a run are (`WorkflowRunner.run` of src/clawops/workflow_runner.py).
use strongclaw.Prelude.{
  ℕ, ◌≤◌, String, Bool, true, false, ◌&&◌, not, ◌≡◌, refl, ap, sym, subst, suc, ◌⊎◌, inl, inr, List,
  [], ◌∷◌, length, arith, Bool-cases,
}
use strongclaw.Value.{Fields}
use strongclaw.Runtime.{Runtime}
use strongclaw.Result.{Result, ok, err, ok-injective}
use strongclaw.Acp.Worker.{StepResult}
use strongclaw.Workflow.Run.{with_result, after_step, run_steps}

-- every result but the last is ok, and the last is not
abbrev pub LastFails : List StepResult → Type 0
LastFails [] = ⊥
LastFails (r ∷ []) = r.ok ≡ false
LastFails (r ∷ s ∷ results) = (r.ok ≡ true) × LastFails (s ∷ results)

-- every result but the last is ok
abbrev pub OnlyLastFails : List StepResult → Type 0
OnlyLastFails [] = Unit
OnlyLastFails (r ∷ []) = Unit
OnlyLastFails (r ∷ s ∷ results) = (r.ok ≡ true) × OnlyLastFails (s ∷ results)

-- One result for each step, and when the run stops on failures no step ran after one that failed;
-- or a run that stopped at its first failure.
abbrev pub Complete : Bool → ℕ → List StepResult → Type 0
Complete stop steps results =
    ((length results ≡ steps) × ((stop ≡ false) ⊎ OnlyLastFails results))
    ⊎ ((stop ≡ true) × (length results ≤ steps) × LastFails results)

stopped_ok : (stop good : Bool) → stop ≡ true → (stop && not good) ≡ false → good ≡ true
stopped_ok true true e h = refl
stopped_ok true false e h = absurd (cc)
stopped_ok false good e h = absurd (cc)

stopping : (stop good : Bool) → (stop && not good) ≡ true → (stop ≡ true) × (good ≡ false)
stopping true false h = (refl, refl)
stopping true true h = absurd (cc)
stopping false good h = absurd (cc)

-- a result that lets the run go on
going : (stop good : Bool) → (stop && not good) ≡ false → (stop ≡ false) ⊎ (good ≡ true)
going true true h = inr refl
going true false h = absurd (cc)
going false good h = inl refl

OnlyLastFails-cons :
    (r : StepResult) (results : List StepResult)
    → r.ok ≡ true
    → OnlyLastFails results
    → OnlyLastFails (r ∷ results)
OnlyLastFails-cons r [] good rest = tt
OnlyLastFails-cons r (s ∷ results) good rest = (good, rest)

-- a result before those of the rest
Complete-cons :
    (stop : Bool) (steps : ℕ) (r : StepResult) (results : List StepResult)
    → (stop && not r.ok) ≡ false
    → Complete stop steps results
    → Complete stop (suc steps) (r ∷ results)
Complete-cons stop steps r results goes (inl (all, inl e)) = inl (ap suc all, inl e)
Complete-cons stop steps r results goes (inl (all, inr rest)) = inl (
  ap suc all,
  elim (going stop r.ok goes) [
    | inl e ↦ inl e
    | inr good ↦ inr (OnlyLastFails-cons r results good rest)
  ],
)
Complete-cons stop steps r [] goes (inr (e, n, last)) = elim last [ ]
Complete-cons stop steps r (s ∷ results) goes (inr (e, n, last)) =
    inr (e, omega arith, (stopped_ok stop r.ok e goes, last))

module _ (rt : Runtime) {S : Type 0} (handle : String → Fields → S → Result StepResult × S) where
  with_result-Complete :
      (stop : Bool) (steps : ℕ) (r : StepResult) (rest : Result (List StepResult) × S)
      (results : List StepResult)
      → (stop && not r.ok) ≡ false
      → ((tail : List StepResult) → rest.0 ≡ ok tail → Complete stop steps tail)
      → (with_result rt handle r rest).0 ≡ ok results
      → Complete stop (suc steps) results
  unfolding with_result
  with_result-Complete stop steps r (err e, s) results goes tails h = absurd (cc)
  with_result-Complete stop steps r (ok tail, s) results goes tails h =
      subst (λ l. Complete stop (suc steps) l) (ok-injective h)
        (Complete-cons stop steps r tail goes (tails tail refl))

  after_step-Complete :
      (stop : Bool) (steps : ℕ) (rest : S → Result (List StepResult) × S)
      (first : Result StepResult × S) (results : List StepResult)
      → ((s : S) (tail : List StepResult) → (rest s).0 ≡ ok tail → Complete stop steps tail)
      → (after_step rt handle stop rest first).0 ≡ ok results
      → Complete stop (suc steps) results
  unfolding after_step
  after_step-Complete stop steps rest (err e, s) results tails h = absurd (cc)
  after_step-Complete stop steps rest (ok r, s) results tails h =
      elim (Bool-cases (stop && not r.ok)) [
        | inl e ↦
            let (stops, fails) = stopping stop r.ok e in
            subst (λ l. Complete stop (suc steps) l) (ok-injective (rw e at h))
              (inr (stops, omega arith, fails))
        | inr e ↦ with_result-Complete stop steps r (rest s) results e (tails s) (rw e at h)
      ]

  -- If the loop of `run` returns results: with `stop_on_failure` every result but the last is ok, and
  -- there is one for each step, or at most one for each step and the last is not ok; without it there
  -- is one for each step.
  pub run_steps-Complete :
      (stop : Bool) (steps : List Fields) (s : S) (results : List StepResult)
      → (run_steps rt handle stop steps s).0 ≡ ok results
      → Complete stop (length steps) results
  unfolding run_steps
  run_steps-Complete stop [] s results h = inl (
    sym (ap length (ok-injective h)),
    subst (λ l. (stop ≡ false) ⊎ OnlyLastFails l) (ok-injective h) (inr tt),
  )
  run_steps-Complete stop (step ∷ steps) s results h =
      after_step-Complete stop (length steps) _ _ results
        (λ s' tail e. run_steps-Complete stop steps s' tail e) h
