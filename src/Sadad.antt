-- ===== src/Sadad.antt =====
-- SADAD bills (addons/sa_sadad): the number of a bill, and its payment.
pub mod BillNumber
pub mod Bill
