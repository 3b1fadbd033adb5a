-- ===== src/Channels.antt =====
-- The channels that notifications leave by: services/api/src/notifications/sms.service.ts,
-- webhook.service.ts and channel-util.ts.
pub mod Sms
pub mod Webhook
pub mod Secrets
pub mod Template
mod Tests
