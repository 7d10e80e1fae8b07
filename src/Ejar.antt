-- ===== src/Ejar.antt =====
-- The integration with the Ejar platform (addons/l10n_sa_ejar).
pub mod Errors
pub mod Policy
pub mod Circuit
pub mod Auth
pub mod Client
pub mod Contract
pub mod Payload
pub mod Lifecycle
pub mod Jobs
pub mod SyncLog
pub mod Webhook
