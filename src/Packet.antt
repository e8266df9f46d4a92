-- ===== src/Packet.antt =====
-- src/packet: raw IPv4/TCP packets, their wire format, the CPU engine and the wave scheduler.
pub mod Raw
pub mod Wire
pub mod Http
pub mod Flow
pub mod Config
pub mod Cpu
pub mod Wave
pub mod Tests
