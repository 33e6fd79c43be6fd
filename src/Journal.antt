-- ===== src/Journal.antt =====
-- src/clawops/op_journal.py: the operation journal, its rows, and the calls that change them.
pub mod Rows
pub mod Status
pub mod Tables
pub mod Begin
pub mod Transition
pub mod Review
pub mod Lease
pub mod Queries
pub mod History
