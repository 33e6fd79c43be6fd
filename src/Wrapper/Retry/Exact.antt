-- ===== src/Wrapper/Retry/Exact.antt =====
-- How often `JsonHttpClient.request` of src/clawops/wrappers/base.py sends, and what it reports.
use strongclaw.Prelude.{
  ℕ, zero, suc, ◌+◌, ◌≤◌, ◌<◌, String, ◌≡◌, refl, ap, ◌∙◌, Bool, true, false, ◌&&◌, not, Option,
  none, some, ◌⊎◌, inl, inr, eqb, ltb, ltb→lt, Bool-cases, arith, if◌then◌else◌,
}
use strongclaw.Runtime.{Runtime}
use strongclaw.Result.{ok}
use strongclaw.Wrapper.Requests.{
  RetryPolicy, Reply, outcome, transport_error, allows_retry_for_status, from_exception,
}
use strongclaw.Wrapper.Retry.{
  Attempt, answered, failed, allows_retry_for_exception, ClientRun, final_outcome, attempt_once,
  request_loop, request_with, effective_retry_policy, request, gated_policy, no_retry, or_no_retry,
  http_retry_mode,
}

-- Whether an attempt may be tried again.
unfoldable pub is_transient : RetryPolicy → Attempt → Bool
is_transient p (answered r) = not r.ok && allows_retry_for_status p r.status_code
is_transient p (failed class message) = allows_retry_for_exception class

-- Whether each of the first `n` attempts may be tried again.
unfoldable pub all_transient : RetryPolicy → (ℕ → Attempt) → ℕ → Bool
all_transient p server zero = true
all_transient p server (suc n) = is_transient p (server (suc n)) && all_transient p server n

-- The number of attempts that a reply reports.
unfoldable pub reported : Reply → Option ℕ
reported (outcome o) = some o.request_attempts
reported (transport_error e) = some e.request_attempts
reported reply = none

-- The call sent a positive number of requests and no more than the policy allows, and reports that
-- number; all but the last may be tried again, and the last may not or is the last allowed.
pub record Retried (p : RetryPolicy) (server : ℕ → Attempt) (run : ClientRun) : Type 0 where
  pub before : ℕ
  pub count : run.sent ≡ suc before
  pub bounded : run.sent ≤ p.max_attempts
  pub reports : reported run.reply ≡ some run.sent
  pub retried : all_transient p server before ≡ true
  pub stopped : (is_transient p (server (suc before)) ≡ false) ⊎ (run.sent ≡ p.max_attempts)

-- The tests of the loop, on an answer and on an exception: `a` and `c` say whether the attempt may
-- be tried again, `b` and `d` whether the policy allows another.
answer_again : (a b c d : Bool) → (a && b && c && d) ≡ true → ((a && c) ≡ true) × (d ≡ true)
answer_again true true true true h = (refl, refl)
answer_again a b c d h = absurd (cc)

answer_stops :
    (a b c d : Bool) → (a && b && c && d) ≡ false → ((a && c) ≡ false) ⊎ (b ≡ false) ⊎ (d ≡ false)
answer_stops false b c d h = inl refl
answer_stops true false c d h = inr (inl refl)
answer_stops true true false d h = inl refl
answer_stops true true true d h = inr (inr h)

failure_again : (b c d : Bool) → ((b && c) && d) ≡ true → (c ≡ true) × (d ≡ true)
failure_again true true true h = (refl, refl)
failure_again b c d h = absurd (cc)

failure_stops : (b c d : Bool) → ((b && c) && d) ≡ false → (c ≡ false) ⊎ (b ≡ false) ⊎ (d ≡ false)
failure_stops false c d h = inr (inl refl)
failure_stops true false d h = inl refl
failure_stops true true d h = inr (inr h)

last_allowed : (k m : ℕ) → k < m → (ltb 1 m ≡ false) ⊎ (ltb (suc k) m ≡ false) → suc k ≡ m
last_allowed k m below (inl h) = ground arith
last_allowed k m below (inr h) = ground arith

module _ (rt : Runtime) (method url : String) (p : RetryPolicy) (server : ℕ → Attempt) where
  -- An attempt that is not tried again.
  stop-Retried :
      (k : ℕ) (reply : Reply)
      → k < p.max_attempts
      → all_transient p server k ≡ true
      → reported reply ≡ some (suc k)
      → (is_transient p (server (suc k)) ≡ false) ⊎ (suc k ≡ p.max_attempts)
      → Retried p server (record { reply = reply; sent = suc k })
  stop-Retried k reply below past says end = record {
    before = k;
    count = refl;
    bounded = omega arith;
    reports = says;
    retried = past;
    stopped = end;
  }

  stop_case :
      (k : ℕ) {t : Bool}
      → k < p.max_attempts
      → is_transient p (server (suc k)) ≡ t
      → (t ≡ false) ⊎ (ltb 1 p.max_attempts ≡ false) ⊎ (ltb (suc k) p.max_attempts ≡ false)
      → (is_transient p (server (suc k)) ≡ false) ⊎ (suc k ≡ p.max_attempts)
  stop_case k below at (inl e) = inl (at ∙ e)
  stop_case k below at (inr e) = inr (last_allowed k p.max_attempts below e)

  both : {a b : Bool} → a ≡ true → b ≡ true → (a && b) ≡ true
  both e f = rw (e, f) refl

  if-Retried :
      (again : Bool) (x y : ClientRun)
      → (again ≡ true → Retried p server x)
      → (again ≡ false → Retried p server y)
      → Retried p server (if again then x else y)
  if-Retried true x y f g = f refl
  if-Retried false x y f g = g refl

  attempt-Retried :
      (next : Option String → Option ℕ → ClientRun) (k : ℕ)
      → k < p.max_attempts
      → all_transient p server k ≡ true
      → (suc k < p.max_attempts
          → all_transient p server (suc k) ≡ true
          → (id : Option String) (delay : Option ℕ) → Retried p server (next id delay))
      → (id : Option String) (delay : Option ℕ) (a : Attempt) → server (suc k) ≡ a
      → Retried p server (attempt_once rt method url p server next (suc k) id delay a)
  unfolding attempt_once final_outcome all_transient is_transient reported from_exception
  attempt-Retried next k below past later id delay (answered r) at =
      if-Retried _ (next _ _) _
        (λ h.
          let (transient, more) = answer_again (not r.ok) _ _ _ h in
          later (ltb→lt (suc k) p.max_attempts more)
            (both (ap (is_transient p) at ∙ transient) past) _ _)
        (λ h.
          stop-Retried k _ below past refl
            (stop_case k below (ap (is_transient p) at) (answer_stops (not r.ok) _ _ _ h)))
  attempt-Retried next k below past later id delay (failed class message) at =
      if-Retried _ (next _ _) _
        (λ h.
          let (transient, more) = failure_again _ (allows_retry_for_exception class) _ h in
          later (ltb→lt (suc k) p.max_attempts more)
            (both (ap (is_transient p) at ∙ transient) past) _ _)
        (λ h. stop-Retried k _ below past refl (
          stop_case k below (ap (is_transient p) at)
            (failure_stops _ (allows_retry_for_exception class) _ h)))

  loop-Retried :
      (left k : ℕ)
      → suc left + k ≡ p.max_attempts
      → all_transient p server k ≡ true
      → (id : Option String) (delay : Option ℕ)
      → Retried p server (request_loop rt method url p server (suc left) (suc k) id delay)
  unfolding request_loop
  loop-Retried zero k size past id delay =
      attempt-Retried (request_loop rt method url p server zero (suc (suc k))) k (omega arith) past
        (λ more. absurd (omega arith)) id delay (server (suc k)) refl
  loop-Retried (suc left) k size past id delay =
      attempt-Retried (request_loop rt method url p server (suc left) (suc (suc k))) k (omega arith)
        past (λ more past'. loop-Retried left (suc k) (omega arith) past') id delay (server (suc k))
        refl

  loop_all :
      (n : ℕ)
      → n ≡ p.max_attempts
      → 0 < n
      → Retried p server (request_loop rt method url p server n 1 none none)
  unfolding all_transient
  loop_all zero size positive = absurd (omega arith)
  loop_all (suc left) size positive = loop-Retried left 0 (omega arith) refl none none

-- With a retry mode that is valid, a timeout that is positive and a policy with at least one
-- attempt, the call makes between one and `max_attempts` requests of the active policy, reports
-- their number, tries again only after failures that the policy lets it retry, and stops only at
-- an attempt that is not such a failure or at the last one.
pub request_exact :
    (rt : Runtime) (method url : String) (server : ℕ → Attempt) (raw : String) (limit : ℕ)
    (requested : Option RetryPolicy) (p : RetryPolicy)
    → effective_retry_policy raw requested ≡ ok p
    → 0 < limit
    → 0 < p.max_attempts
    → Retried p server (request rt method url server raw limit requested)
unfolding request request_with
request_exact rt method url server raw limit requested p active positive some_attempt =
    let set : eqb limit 0 ≡ false = ground arith in
    rw (active, set) (loop_all rt method url p server p.max_attempts refl some_attempt)

once : (before sent allowed : ℕ) → sent ≡ suc before → sent ≤ allowed → allowed ≡ 1 → sent ≡ 1
once before sent allowed a b c = omega arith

gate_off :
    (requested : RetryPolicy)
    → 0 < requested.max_attempts
    → (p : RetryPolicy) × (gated_policy (ok "off") requested ≡ ok p) × (p.max_attempts ≡ 1)
unfolding gated_policy no_retry
gate_off requested positive = elim (Bool-cases (ltb 1 requested.max_attempts)) [
  | inl e ↦ (
    no_retry requested,
    ap (λ (b : Bool). ok (if b then no_retry requested else requested)) e,
    refl,
  )
  | inr e ↦ (
    requested,
    ap (λ (b : Bool). ok (if b then no_retry requested else requested)) e,
    ground arith,
  )
]

-- With the retry mode "off" and a positive timeout, every policy with at least one attempt sends
-- exactly one request.
pub off_sends_once :
    (rt : Runtime) (method url : String) (server : ℕ → Attempt) (limit : ℕ)
    (requested : Option RetryPolicy)
    → 0 < limit
    → 0 < (or_no_retry requested).max_attempts
    → (request rt method url server "off" limit requested).sent ≡ 1
unfolding effective_retry_policy http_retry_mode
off_sends_once rt method url server limit requested positive valid =
    let (p, active, single) = gate_off (or_no_retry requested) valid in
    let run =
      request_exact rt method url server "off" limit requested p active positive (omega arith) in
    once run.before (request rt method url server "off" limit requested).sent p.max_attempts
      run.count run.bounded single
