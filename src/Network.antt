-- ===== src/Network.antt =====
-- src/network.rs: how requests are cut out of a connection's bytes, and what is answered to them.
pub mod Framing
pub mod Close
pub mod Connection
pub mod Windows
pub mod Whole
pub mod Chunks
pub mod Pipeline
pub mod Headers
pub mod Closing
pub mod Tokens
pub mod Tests
