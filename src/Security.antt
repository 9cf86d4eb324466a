-- ===== src/Security.antt =====
-- The security primitives: crates/solid-pod-rs/src/security.
pub mod Dotfile
pub mod Ssrf
pub mod RateLimit
pub mod Cors
