-- ===== src/Batcher.antt =====
-- src/batcher.rs: the queue between the connections and the processor, and its worker.
pub mod Queue
pub mod Worker
pub mod System
pub mod Collect
pub mod Order
pub mod Invariant
pub mod Progress
pub mod Tests
