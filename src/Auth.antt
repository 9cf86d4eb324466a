-- ===== src/Auth.antt =====
-- Authentication: crates/solid-pod-rs/src/auth.
pub mod Nip98
