-- ===== src/Channels.antt =====
-- src/app/channels: the application's end of the gateway.
pub mod Bridge
mod Tests
