-- ===== src/Handshake.antt =====
-- The opening handshake of jetsocket/_core.pyx: the text of the request and the checks of the response.
pub mod Texts
pub mod Defs
pub mod Lines
pub mod Answer
mod Tests
