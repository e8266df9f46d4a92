-- ===== src/Processor.antt =====
-- The host side of the GPU processor, src/processor/gpu.rs: requests packed into words, responses
-- decoded from bytes.
pub mod Pack
pub mod Decode
pub mod Words
pub mod Packing
pub mod Decoding
pub mod Tests
