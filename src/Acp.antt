-- ===== src/Acp.antt =====
-- ACP worker sessions: src/clawops/acp_runner.py, and the worker dispatch step of
-- src/clawops/workflow_runner.py.
pub mod Spec
pub mod Session
pub mod Worker
