-- ===== src/Carrier.antt =====
-- The carrier of packages/soul/src/carrier: it notices that an agent is offline and resurrects it.
pub mod Monitor
pub mod Flow
pub mod Daemon
mod Tests
