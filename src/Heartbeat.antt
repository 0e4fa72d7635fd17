-- ===== src/Heartbeat.antt =====
-- jetsocket/heartbeat.py: pings, pongs and latencies.
pub mod Defs
pub mod Cycle
pub mod Samples
mod Tests
