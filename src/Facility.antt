-- ===== src/Facility.antt =====
-- The Task facility: its core, and what the core guarantees.
pub mod Core
pub mod Invariant
pub mod Frame
pub mod Admission
pub mod Grant
pub mod Update
pub mod Withdrawal
pub mod Cancellation
pub mod Release
pub mod Completion
pub mod Counting
pub mod Taking
pub mod Reclamation
pub mod History
pub mod Reuse
