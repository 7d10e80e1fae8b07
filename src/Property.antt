-- ===== src/Property.antt =====
-- addons/sa_property_base: tenancies, the properties they take, and inspections.
pub mod Occupancy
pub mod Inspection
