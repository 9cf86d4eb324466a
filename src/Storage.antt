-- ===== src/Storage.antt =====
-- Stored resources: crates/solid-pod-rs/src/storage.
pub mod Memory
pub mod Fs
