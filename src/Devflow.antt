-- ===== src/Devflow.antt =====
-- Durable runs and stages of devflow: src/clawops/devflow_state.py.
pub mod Rows
pub mod Tables
pub mod State
pub mod Calls
pub mod Integrity
pub mod Preserved
pub mod Traces
pub mod Cancel
pub mod Resume
