-- ===== src/Gateway.antt =====
-- The gateway daemon, src/gateway.
pub mod Types
pub mod BindingStore
pub mod SessionKey
pub mod SessionRegistry
pub mod InboundQueue
pub mod Outbox
pub mod OutboundDispatcher
pub mod Pipeline
pub mod Relay
pub mod DaemonArgs
pub mod ChannelManager
pub mod Reconcile
pub mod Reconciler
pub mod Tests
