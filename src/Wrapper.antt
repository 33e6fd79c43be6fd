-- ===== src/Wrapper.antt =====
-- src/clawops/wrappers/base.py: side effects under the policy engine and the journal.
pub mod Contract
pub mod Results
pub mod Requests
pub mod Execute
pub mod Retry
pub mod Session
pub mod Dispatch
pub mod Prepare
