-- ===== src/Notifications.antt =====
-- apps/worker/src/notifications.ts: `Signature` is the check of a webhook at its receiver, `Dispatch` the
-- delivery to a channel.
pub mod Signature
pub mod Dispatch
mod Tests
