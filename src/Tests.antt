-- ===== src/Tests.antt =====
-- Concrete inputs, and the theorems at them.
mod Fixtures
mod Circuit
mod Client
mod Auth
mod Contract
mod Lifecycle
mod Jobs
mod Webhook
mod Property
mod CallCenter
mod Notifications
mod UserProfile
mod Rental
mod Crm
mod Sadad
mod Commission
mod Maintenance
mod Matching
