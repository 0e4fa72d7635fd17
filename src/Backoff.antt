-- ===== src/Backoff.antt =====
-- jetsocket/backoff.py: the delays between attempts to reconnect.
pub mod Defs
pub mod Delays
pub mod Attempts
mod Tests
