-- ===== src/Lib.antt =====
-- Verification library of strongclaw's control plane, the Python package src/clawops.
--
-- Parts and files:
--   Prelude          shared names, tests on numbers and texts, lists, Python's str methods
--   Value            parsed JSON and YAML values; Value/Matching is `match_mapping` and Python's
--                    equality (src/clawops/common.py); Value/Sorted is the order of json's sorted keys
--   Runtime          what the code calls of hashlib, json, fnmatch and email.utils, as parameters
--   Result           what the code raises, and the monad of calls that may raise
--   Journal          src/clawops/op_journal.py: Rows (the tables), Status (`ALLOWED_TRANSITIONS`),
--                    Tables (the SQL statements), Begin, Transition, Review, Lease (the calls),
--                    Queries (`queue`, `list_stuck`, `list_leases`),
--                    History (the calls as steps of a relation, and sequences of calls)
--   Policy           src/clawops/policy_engine.py: Access, Decision, Rules (the loop), Evaluate;
--                    Gates and Metadata prove what it decides
--   Wrapper          src/clawops/wrappers/base.py: Contract (execution contracts), Results (results
--                    and their replay), Requests (what a request ends with), Execute
--                    (`execute_http_operation`), Retry (`JsonHttpClient.request`), Session (calls
--                    one after another), Dispatch (src/clawops/approval_dispatch.py), Prepare
--                    (`prepare_operation`), with what they do in the modules below them
--   Devflow          src/clawops/devflow_state.py: Rows and Tables (rows, keys, SQL statements), State
--                    (what each UPDATE writes), Calls; Integrity, Preserved and Traces are about the
--                    keys, Cancel and Resume about these calls
--   Typed            src/clawops/typed_values.py: coercions of dynamic values
--   Orchestration    src/clawops/orchestration.py: Tokens (slugs, tokens, derived ids), Identity
--                    (session and lock identities), Paths (trusted roots, git queries), Descriptors
--                    (project, workspace, delivery target), Inputs (context request, expected
--                    artifacts), Task (`resolve_orchestration_task`), Contract (`to_contract`)
--   Acp              src/clawops/acp_runner.py: Spec (preflight and the acpx command line), Session
--                    (`run_session`: lock file, lease, outcome); Worker is the worker dispatch step of
--                    src/clawops/workflow_runner.py
--   Workflow         src/clawops/workflow_runner.py: `_validate_workflow`, and Run, the loop over the
--                    steps
--   Tests            runs on concrete inputs, and the theorems applied to them
--
-- The journal is a value with the rows of its tables; a call takes it and returns either what it
-- raises, and then the caller goes on with the journal as it was (the `with` block rolls back), or
-- its result with the new journal. The time of a call, `utc_now_ms()`, is an argument. A policy
-- decision is computed from the policy and the payload as values. The wrappers of
-- src/clawops/wrappers evaluate the policy, begin an operation in the journal and move it through
-- its statuses. Here an execution returns the journal also when it raises, because it has several
-- calls of the journal; the request that it sends is a function of the journal, which returns its
-- reply and the journal as other processes have left it meanwhile.
--
-- A task mapping is resolved on a host: the calls of pathlib and of subprocess are arguments, on a
-- file system that does not change during the call. A path is its POSIX text. A call raises the
-- first error that the source would, with the values that its message names.
--
-- A worker dispatch begins an operation in the journal, has it approved, runs a session and settles
-- the operation; the session takes a lease in the same journal. What acpx does is a function of its
-- command and the journal, which it returns as other processes have left it; `runs` counts its calls.
--
-- Bounds: numbers are unbounded, as in Python; times and durations are natural numbers. The only
-- fuel is that of `show_nat`, which is given one more than the number, and a number has no more
-- digits than that.
--
-- Not modelled: the contents of reviewer packets, and the delays between requests; the SQLite file,
-- its connections, retries and migrations; numbers with a fraction; the digests and JSON
-- texts, which are parameters; the rest of the package, which is set-up, process control and file
-- I/O around external programs, and the plugins under platform/plugins.
pub mod Prelude
pub mod Value
pub mod Runtime
pub mod Result
pub mod Journal
pub mod Policy
pub mod Wrapper
pub mod Devflow
pub mod Typed
pub mod Orchestration
pub mod Acp
pub mod Workflow
mod Tests
