-- ===== src/Crm.antt =====
-- Customer relations (addons/sa_crm): the reservation of properties for leads, and the rotation that
-- assigns leads to agents.
pub mod Types
pub mod Reservations
pub mod Rotation
pub mod Matching
