-- ===== src/Stats.antt =====
-- jetsocket/stats.py: the counters and times of a connection.
pub mod Defs
pub mod Totals
mod Tests
