-- ===== src/Pool.antt =====
-- jetsocket/pool.py: a pool of connections, with a semaphore for those in use.
pub mod Defs
pub mod Permits
pub mod Idle
mod Tests
