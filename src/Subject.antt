-- ===== src/Subject.antt =====
-- frontend/server/prooflock/subject/classify.ts and checks/: what kind of account the subject of an
-- agent is at one source block, the checks of each kind, and the subject of the evidence.
pub mod Chain
pub mod Classify
pub mod Account
pub mod Source
pub mod Proxy
pub mod Contract
pub mod Checks
pub mod Evidence
pub mod Blocks
pub mod Delegation
pub mod Kinds
pub mod Shape
