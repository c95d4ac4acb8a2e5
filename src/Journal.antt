-- ===== src/Journal.antt =====
-- The operation journal of frontend/server/prooflock/operation-journal.ts.
pub mod Types
pub mod Db
pub mod Validate
pub mod Admission
pub mod Costs
pub mod Phases
pub mod Rows
pub mod Invariant
pub mod Commitments
pub mod Effects
pub mod Steps
pub mod Limits
pub mod Graph
pub mod Verified
pub mod Idempotency
