-- ===== src/Multiplex.antt =====
-- jetsocket/multiplex.py: subscriptions to channels over one connection.
pub mod Defs
pub mod Counts
pub mod Calls
pub mod Keeps
pub mod Route
pub mod Retry
mod Tests
