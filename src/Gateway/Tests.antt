-- ===== src/Gateway/Tests.antt =====
-- Sample data of the gateway, and each theorem of its parts applied to it.
pub mod Sample
pub mod Slots
pub mod Turns
mod Plans
pub mod Queues
pub mod Relays
mod Channels
mod Daemon
