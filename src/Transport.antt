-- ===== src/Transport.antt =====
-- The transports of jetsocket/transport/_sync.py and jetsocket/transport/_async.py.
pub mod Base
pub mod Socket
pub mod Sending
pub mod Sync
pub mod Async
mod Tests
