-- ===== src/Execution/Invariants.antt =====
-- crates/procnote-core/src/execution/engine.rs: invariants of `from_events`.
pub mod Lifecycle
pub mod Order
pub mod Notes
