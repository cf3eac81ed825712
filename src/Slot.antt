-- ===== src/Slot.antt =====
-- src/execution/slot.ts: the one writer lease of a workspace, which every provider shares.
-- `Lease` has the record and its file format, the other children the operations' properties.
pub mod Lease
pub mod Operations
pub mod Reconcile
pub mod History
pub mod Fixtures
