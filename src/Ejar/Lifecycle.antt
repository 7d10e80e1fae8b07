-- ===== src/Ejar/Lifecycle.antt =====
-- services/lifecycle_service.py: the submission of one contract.
pub mod World
pub mod Steps
pub mod Pipeline
pub mod Extends
pub mod Progress
pub mod StepProgress
pub mod AllProgress
pub mod Resume
pub mod Outcome
pub mod Gate
