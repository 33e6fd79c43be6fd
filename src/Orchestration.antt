-- ===== src/Orchestration.antt =====
-- Task contracts of src/clawops/orchestration.py: identity tokens and descriptor ids, the trusted
-- roots of a project, and the resolution of a task mapping.
pub mod Tokens
pub mod Identity
pub mod Paths
pub mod Descriptors
pub mod Inputs
pub mod Task
pub mod Contract
