-- ===== src/CallCenter.antt =====
-- addons/sa_call_center: the calls that the telephone system reports, and tickets.
pub mod Calls
pub mod Tickets
