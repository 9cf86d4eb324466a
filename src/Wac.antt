-- ===== src/Wac.antt =====
-- Web Access Control: crates/solid-pod-rs/src/wac.
pub mod Mode
pub mod Document
pub mod Condition
pub mod Target
pub mod Evaluator
pub mod Origin
pub mod Gate
pub mod Bounds
pub mod Resolver
pub mod Turtle
