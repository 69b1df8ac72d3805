-- ===== src/Realtime.antt =====
-- Realtime events: the wire format, the browser's parser and client, and the server's broker.
pub mod Sse
pub mod Client
pub mod Broker
mod Tests
