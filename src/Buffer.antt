-- ===== src/Buffer.antt =====
-- jetsocket/buffer.py: the message buffer, with its configuration, and what is proved of it.
pub mod Defs
pub mod Window
pub mod Calls
pub mod Dedup
pub mod Retry
pub mod Drops
mod Tests
