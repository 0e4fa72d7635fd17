-- ===== src/Manager.antt =====
-- jetsocket/manager.py: the WebSocket manager, which connects, reconnects, replays and receives.
pub mod Defs
pub mod SetState
pub mod Send
pub mod Connect
pub mod Loop
pub mod Timers
pub mod Stop
pub mod Retry
pub mod Wait
pub mod Consistent
pub mod Messages
pub mod Cycle
pub mod Reachable
pub mod Queue
pub mod Replay
mod Tests
