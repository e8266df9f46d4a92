-- ===== src/Server.antt =====
-- The HTTP server over sockets: its configuration, src/config.rs.
pub mod Config
pub mod Tests
