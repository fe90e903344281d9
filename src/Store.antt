-- ===== src/Store.antt =====
-- crates/procnote-app/src/persistence: the directory of an execution.
pub mod Files
pub mod Outbox
pub mod ConflictLog
pub mod Directory
pub mod Settle
pub mod Conflicts
pub mod Attached
pub mod Workspace
pub mod Fixture
mod Examples
