-- ===== src/Events.antt =====
-- jetsocket/events.py: the events, and the emitter that calls their handlers.
pub mod Defs
pub mod Emitter
pub mod Order
mod Tests
