-- ===== src/Transport/Async.antt =====
-- `_WSProtocol` and `AsyncTransport` of jetsocket/transport/_async.py.
pub mod State
pub mod Protocol
pub mod Defs
pub mod Send
pub mod Connect
pub mod Recv
pub mod Close
pub mod Reuse
pub mod Delivery
pub mod Unpinged
pub mod DataOnly
pub mod Lost
