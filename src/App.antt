-- ===== src/App.antt =====
-- crates/procnote-app: what a request records in the log of an execution.
pub mod Action
pub mod Meta
pub mod Repository
pub mod Decided
pub mod Received
pub mod Sync
mod Examples
