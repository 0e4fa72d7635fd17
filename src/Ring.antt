-- ===== src/Ring.antt =====
-- The ring buffer of jetsocket/_core.pyx and jetsocket/buffer.py, and the queue that it implements.
pub mod Defs
pub mod Queue
pub mod Slots
pub mod Represents
pub mod Refine
pub mod Drain
pub mod Trace
mod Tests
