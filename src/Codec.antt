-- ===== src/Codec.antt =====
-- The frame codec of jetsocket/_core.pyx: masking, frames, the parser and the encoder.
pub mod Bits
pub mod Bytes
pub mod Mask
pub mod Words
pub mod Opcode
pub mod Parse
pub mod Encode
pub mod Octets
pub mod Whole
pub mod RoundTrip
pub mod Prefix
pub mod Valid
pub mod Feed
pub mod Fuel
pub mod Chunks
pub mod Close
pub mod Deflater
pub mod Stream
mod Tests
