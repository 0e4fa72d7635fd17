-- ===== src/SyncClient.antt =====
-- `SyncWebSocket` of jetsocket/sync_client.py, a blocking client around a manager in a thread.
pub mod Defs
pub mod Queue
pub mod Handlers
mod Tests
