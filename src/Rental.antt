-- ===== src/Rental.antt =====
-- The cycle of a tenancy (addons/sa_rental_cycle): its payments, their schedule, the deposit, the
-- end, the renewal and the alerts.
pub mod Types
pub mod Payment
pub mod Schedule
pub mod Deposit
pub mod Renewal
pub mod Alerts
