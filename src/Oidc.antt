-- ===== src/Oidc.antt =====
-- OpenID Connect: crates/solid-pod-rs/src/oidc.
pub mod Replay
