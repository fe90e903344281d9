-- ===== src/DropPoint.antt =====
-- src-tauri/src/drop_point: the private state of the sessions in which attachments arrive through a
-- relay.
pub mod Session
pub mod Urls
pub mod Checks
pub mod Links
pub mod Validate
pub mod Merge
pub mod Sessions
mod Fixture
mod Examples
