-- ===== src/Packet/Wave.antt =====
-- The wave scheduler of the GPU packet engine, src/packet/mod.rs.
pub mod FlowSet
pub mod Fill
pub mod Metadata
