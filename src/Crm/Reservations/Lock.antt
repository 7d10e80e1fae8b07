-- ===== src/Crm/Reservations/Lock.antt =====
-- What one step does to the reservation that holds a property.
use propza_amlak.Crm.Types.{Crm}
