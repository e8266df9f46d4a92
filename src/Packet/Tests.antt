-- ===== src/Packet/Tests.antt =====
-- Theorems about src/packet at concrete inputs.
pub mod Data
pub mod Wire
pub mod Cpu
pub mod Wave
