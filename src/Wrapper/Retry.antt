-- ===== src/Wrapper/Retry.antt =====
-- `JsonHttpClient.request` of src/clawops/wrappers/base.py and its retries. The delays between
-- attempts are not modelled; a timeout that is not positive is 0.
pub mod Exact
use strongclaw.Prelude.{
  ℕ, zero, suc, ◌-◌, String, Bool, true, false, ◌&&◌, ◌||◌, not, Option, none, some, ◌==◌, ltb, eqb,
  if◌then◌else◌,
}
use strongclaw.Runtime.{Runtime}
use strongclaw.Result.{Result, ok, err, bad_retry_mode}
use strongclaw.Wrapper.Results.{or_column}
use strongclaw.Wrapper.Requests.{
  Response, RetryPolicy, ExceptionClass, timeout, connection_error, request_error, Reply, outcome,
  transport_error, other, no_retry_policy, allows_retry_for_status, response_request_id,
  parse_retry_after, from_exception,
}

-- What one call of `requests.request` returns or raises.
pub data Attempt : Type 0 where
  answered : Response → Attempt
  failed : ExceptionClass → String → Attempt

-- `RetryPolicy.allows_retry_for_exception`
unfoldable pub allows_retry_for_exception : ExceptionClass → Bool
allows_retry_for_exception timeout = true
allows_retry_for_exception connection_error = true
allows_retry_for_exception request_error = false

-- RetryPolicy.no_retry(name=policy.name)
unfoldable pub no_retry : RetryPolicy → RetryPolicy
no_retry p = record no_retry_policy { name = p.name }

-- the value of CLAWOPS_HTTP_RETRY_MODE, stripped and in lower case
unfoldable pub http_retry_mode : String → Result String
http_retry_mode raw = if raw == "off" || raw == "safe" then ok raw else err bad_retry_mode

unfoldable pub or_no_retry : Option RetryPolicy → RetryPolicy
or_no_retry none = no_retry_policy
or_no_retry (some p) = p

unfoldable pub gated_policy : Result String → RetryPolicy → Result RetryPolicy
unfolding no_retry
gated_policy (err e) p = err e
gated_policy (ok mode) p = ok (if mode == "off" && ltb 1 p.max_attempts then no_retry p else p)

-- `_effective_retry_policy`
unfoldable pub effective_retry_policy : String → Option RetryPolicy → Result RetryPolicy
unfolding http_retry_mode or_no_retry gated_policy
effective_retry_policy raw p = gated_policy (http_retry_mode raw) (or_no_retry p)

-- What the call ends with, and the number of times that it called `requests.request`.
pub record ClientRun : Type 0 where
  pub reply : Reply
  pub sent : ℕ

module _ (rt : Runtime) (method url : String) (p : RetryPolicy) (server : ℕ → Attempt) where
  -- the outcome that the loop returns
  unfoldable pub final_outcome : Response → ℕ → Option String → Option ℕ → ClientRun
  final_outcome r n observed_id observed_delay = record {
    reply = outcome (record {
      response = r;
      request_method = method;
      request_url = url;
      request_attempts = n;
      retry_policy = p;
      request_id = or_column (response_request_id r) observed_id;
      retry_after_seconds =
          or_column (parse_retry_after rt (r.header "Retry-After")) observed_delay;
    });
    sent = n;
  }

  -- The body of the loop at attempt `n`; `next` is the loop from the following attempt on.
  unfoldable pub attempt_once :
      (Option String → Option ℕ → ClientRun) → ℕ → Option String → Option ℕ → Attempt → ClientRun
  unfolding final_outcome
  attempt_once next n observed_id observed_delay (answered r) =
      if not r.ok
        && ltb 1 p.max_attempts
        && allows_retry_for_status p r.status_code
        && ltb n p.max_attempts
      then next (or_column (response_request_id r) observed_id)
          (or_column (parse_retry_after rt (r.header "Retry-After")) observed_delay)
      else final_outcome r n observed_id observed_delay
  attempt_once next n observed_id observed_delay (failed class message) =
      let retryable = ltb 1 p.max_attempts && allows_retry_for_exception class in
      if retryable && ltb n p.max_attempts then next observed_id observed_delay else record {
        reply = transport_error (from_exception class message method url retryable n);
        sent = n;
      }

  -- the loop, with `left` attempts from attempt `n` on
  unfoldable pub request_loop : ℕ → ℕ → Option String → Option ℕ → ClientRun
  unfolding attempt_once
  request_loop zero n observed_id observed_delay = record {
    reply = other "unreachable: request loop returned no response";
    sent = n - 1;
  }
  request_loop (suc left) n observed_id observed_delay =
      attempt_once (request_loop left (suc n)) n observed_id observed_delay (server n)

module _ (rt : Runtime) (method url : String) (server : ℕ → Attempt) where
  unfoldable pub request_with : ℕ → Result RetryPolicy → ClientRun
  unfolding request_loop
  request_with limit (err e) = record {
    reply = other "CLAWOPS_HTTP_RETRY_MODE must be 'off' or 'safe'";
    sent = 0;
  }
  request_with limit (ok p) =
      if eqb limit 0 && ltb 0 p.max_attempts
      then record { reply = other "timeout must be positive"; sent = 0 }
      else request_loop rt method url p server p.max_attempts 1 none none

  -- `JsonHttpClient.request`: the mode in the environment, the timeout, the policy
  unfoldable pub request : String → ℕ → Option RetryPolicy → ClientRun
  unfolding request_with
  request raw limit p = request_with limit (effective_retry_policy raw p)
