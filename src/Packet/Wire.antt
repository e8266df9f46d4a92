-- ===== src/Packet/Wire.antt =====
-- src/packet/wire.rs: reading, building and checking IPv4/TCP packets.
pub mod Header
pub mod Checksum
pub mod Build
pub mod Parse
pub mod RoundTrip
pub mod Validate
