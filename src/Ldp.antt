-- ===== src/Ldp.antt =====
-- Linked Data Platform semantics: crates/solid-pod-rs/src/ldp.rs.
pub mod Path
pub mod Precondition
pub mod Range
pub mod Graph
pub mod NTriples
pub mod Patch
pub mod Options
pub mod Prefer
