-- ===== src/Tests/WrapperTests.antt =====
-- The theorems on execution contracts and wrapper executions (src/clawops/wrappers/base.py) at
-- concrete operations and requests.
use strongclaw.Prelude.{
  ℕ, ◌≡◌, refl, true, false, none, some, [], ◌∷◌, ◌⊎◌, inr, arith, ltb, if◌then◌else◌,
}
use strongclaw.Value.{obj}
use strongclaw.Value.Access.{get}
use strongclaw.Value.Sorted.{sort_keys}
use strongclaw.Prelude.Text.{show_nat}
use strongclaw.Runtime.{Runtime}
use strongclaw.Journal.Rows.{Operation, Journal}
use strongclaw.Journal.Tables.{find_op, update_op}
use strongclaw.Journal.Transition.{no_changes, transition_row}
use strongclaw.Policy.Decision.{Decision, plain}
use strongclaw.Wrapper.Contract.{
  ExecutionContract, contract_to_dict, build_contract, matches, contract_to_json,
  contract_from_operation,
}
use strongclaw.Wrapper.Contract.RoundTrip.{contract_round_trip}
use strongclaw.Wrapper.Requests.{Response, Reply, raw_response, other}
use strongclaw.Wrapper.Execute.{execute_http_operation}
use strongclaw.Wrapper.Execute.Gate.{Executable, started, sends_when_Executable}
use strongclaw.Wrapper.Execute.Settled.{Settled, verdict, execute_settles}
use strongclaw.Wrapper.Execute.Hazards.{Abandoned, stale_snapshot_sends, unhandled_stays_running}
use strongclaw.Wrapper.Requests.{RetryPolicy, allows_retry_for_status}
use strongclaw.Wrapper.Retry.{Attempt, answered, effective_retry_policy, request_loop, request}
use strongclaw.Wrapper.Retry.Exact.{Retried, request_exact}
use strongclaw.Tests.Json.{dumps, loads}
use strongclaw.Tests.Fixtures.{toy, row}

abbrev allow : Decision
allow = plain "allow" [] []

-- A runtime with a JSON.
abbrev reader : Runtime
reader = record toy { dumps = dumps; loads = loads }

abbrev contract : ExecutionContract
contract = build_contract (row "a" "approved" 0) allow

-- An approved operation with its contract.
abbrev ready : Operation
ready = record (row "a" "approved" 0) {
  policy_decision = some "allow";
  execution_contract_version = some 1;
  execution_contract_json = some (contract_to_json reader contract);
}

abbrev shelf : Journal
shelf = record { ops = ready ∷ []; leases = [] }

abbrev unavailable : Response
unavailable = record { ok = false; status_code = 503; text = "busy"; header = λ name. none }

-- Requests that leave the journal as it is.
abbrev refused : Journal → Reply × Journal
refused j = (raw_response unavailable, j)

abbrev broken : Journal → Reply × Journal
broken j = (other "CLAWOPS_HTTP_RETRY_MODE must be 'off' or 'safe'", j)

contract_read :
    reader.loads (contract_to_json reader contract)
    ≡ some (sort_keys (obj (contract_to_dict contract)))
unfolding contract_to_json contract_to_dict build_contract show_nat
contract_read = refl

contract_round_trip_example :
    (contract_from_operation reader ready ≡ some (build_contract (row "a" "approved" 0) allow))
    × (matches (build_contract (row "a" "approved" 0) allow) ready ≡ true)
contract_round_trip_example =
    contract_round_trip reader (row "a" "approved" 0) ready allow refl refl refl refl contract_read

ready-Executable : Executable reader ready shelf
unfolding find_op contract_from_operation contract_to_json show_nat contract_to_dict build_contract
    get matches
ready-Executable = record {
  approved = refl;
  contract = build_contract (row "a" "approved" 0) allow;
  loaded = refl;
  matching = refl;
  stored = ready;
  found = refl;
  may_run = inr refl;
}

sends_when_Executable_example :
    (Executable reader ready shelf
      × ((execute_http_operation reader ready (some allow) 3 4 refused shelf).sent ≡ 1))
    ⊎ ((¬ Executable reader ready shelf)
        × ((execute_http_operation reader ready (some allow) 3 4 refused shelf).sent ≡ 0)
        × ((execute_http_operation reader ready (some allow) 3 4 refused shelf).journal ≡ shelf))
sends_when_Executable_example = sends_when_Executable reader ready (some allow) 3 4 refused shelf

abbrev in_flight : Operation
in_flight = transition_row 3 "running" no_changes ready

refused_found : find_op "a" (refused (started 3 ready shelf)).1.ops ≡ some in_flight
unfolding find_op update_op transition_row
refused_found = refl

execute_settles_example :
    Settled
      (some allow)
      "a"
      false
      (execute_http_operation reader ready (some allow) 3 4 refused shelf)
execute_settles_example =
    execute_settles reader ready (some allow) 3 4 refused shelf ready-Executable in_flight
      refused_found (unfold transition_row in refl) (unfold transition_row in omega arith)
      (unfold transition_row in refl) false (unfold verdict in refl)

stale_snapshot_sends_example :
    (execute_http_operation reader ready none 5 6 refused (started 3 ready shelf)).sent ≡ 1
stale_snapshot_sends_example =
    stale_snapshot_sends reader ready none 3 5 6 refused shelf ready-Executable

unhandled_stays_running_example :
    Abandoned reader "a" "CLAWOPS_HTTP_RETRY_MODE must be 'off' or 'safe'"
      (execute_http_operation reader ready none 3 4 broken shelf)
unhandled_stays_running_example =
    unhandled_stays_running reader ready none 3 4 broken shelf
      "CLAWOPS_HTTP_RETRY_MODE must be 'off' or 'safe'" ready-Executable refl

-- A server that is busy twice and then answers.
abbrev done_response : Response
done_response = record { ok = true; status_code = 200; text = "{}"; header = λ name. none }

abbrev busy_twice : ℕ → Attempt
busy_twice n = if ltb n 3 then answered unavailable else answered done_response

abbrev safe_policy : RetryPolicy
safe_policy = record { name = "safe-read"; max_attempts = 5; retryable_status_codes = 503 ∷ [] }

busy_twice_runs : (request toy "GET" "https://api" busy_twice "safe" 30 (some safe_policy)).sent ≡ 3
unfolding request effective_retry_policy request_loop allows_retry_for_status
busy_twice_runs = refl

request_exact_example :
    Retried safe_policy busy_twice
      (request toy "GET" "https://api" busy_twice "safe" 30 (some safe_policy))
request_exact_example =
    request_exact toy "GET" "https://api" busy_twice "safe" 30 (some safe_policy) safe_policy
      (unfold effective_retry_policy in refl) (omega arith) (omega arith)
