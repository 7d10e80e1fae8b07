-- ===== src/Notifications.antt =====
-- addons/sa_notifications: the gateway of the messages.
pub mod Phone
