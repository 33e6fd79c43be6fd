-- ===== src/Policy.antt =====
-- src/clawops/policy_engine.py: decisions on side effects by a policy bundle.
pub mod Access
pub mod Decision
pub mod Rules
pub mod Evaluate
pub mod Gates
pub mod Metadata
