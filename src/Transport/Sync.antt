-- ===== src/Transport/Sync.antt =====
-- `SyncTransport` of jetsocket/transport/_sync.py, from the end of its handshake on.
pub mod State
pub mod Defs
pub mod Recv
pub mod Close
pub mod Connect
pub mod Leftover
pub mod Keeps
pub mod Delivery
pub mod DataOnly
