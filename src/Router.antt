-- ===== src/Router.antt =====
-- src/router.rs: the routes of the HTTP side, their compilation and the CPU backend.
pub mod Body
pub mod Source
pub mod Decimal
pub mod Request
pub mod Strings
pub mod Segments
pub mod Emit
pub mod Compile
pub mod Serve
pub mod Interning
pub mod Meaning
pub mod Lookup
pub mod Implements
pub mod Compiling
pub mod Routes
pub mod Builders
pub mod Merged
pub mod Scanning
pub mod Parsing
pub mod Limits
pub mod Fits
pub mod Refines
pub mod Tests
