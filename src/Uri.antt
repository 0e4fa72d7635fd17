-- ===== src/Uri.antt =====
-- WebSocket URIs, of jetsocket/transport/uri.py.
pub mod Texts
pub mod Defs
pub mod Valid
mod Tests
