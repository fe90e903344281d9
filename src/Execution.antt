-- ===== src/Execution.antt =====
-- crates/procnote-core/src/execution/engine.rs, by parts.
pub mod State
pub mod Steps
pub mod Checkboxes
pub mod Attachments
pub mod Guards
pub mod Lifecycle
pub mod StepEvents
pub mod NoteEvents
pub mod AttachmentEvents
pub mod Apply
pub mod Fixture
pub mod Sound
pub mod Relation
pub mod Transition
pub mod Replay
pub mod Invariants
pub mod Refusals
pub mod Actions
pub mod Start
pub mod Undo
pub mod Describe
mod Examples
