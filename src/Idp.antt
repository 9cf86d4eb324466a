-- ===== src/Idp.antt =====
-- The identity provider: crates/solid-pod-rs-idp/src.
pub mod Session
pub mod Invite
