-- ===== src/Server.antt =====
-- The HTTP server over the library: crates/solid-pod-rs-server/src/lib.rs.
pub mod Handlers
pub mod Middleware
