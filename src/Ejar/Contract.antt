-- ===== src/Ejar/Contract.antt =====
-- models/ejar_contract.py, with the party, unit and profile models that a contract holds.
pub mod Types
pub mod Actions
pub mod Transitions
pub mod Validate
