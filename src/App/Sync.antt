-- ===== src/App/Sync.antt =====
-- crates/procnote-app/src/sync.rs: what the server does with an event that a device recorded.
pub mod Files
pub mod Decided
pub mod Conflicts
pub mod Push
use procnote.Prelude.{
  ℕ, String, ◌==◌, Bool, true, false, ◌&&◌, Option, none, some, List, [], ◌∷◌, Result, ok, err,
  append, any, find?, is_some, nat_eq, if◌then◌else◌,
}
use procnote.Event.{
  ExecutionId, AttachmentRecord, Event, EventRecord, execution_started, execution_completed,
  execution_aborted, execution_reopened, step_added, step_skipped, step_unskipped, checkbox_toggled,
  input_recorded, input_cleared, note_added, note_removed, attachment_added, attachments_added,
  attachment_file_removed, attachments_cleared, attachment_removed, attachment_received,
  attachment_assigned, attachment_unassigned, execution_renamed, log_meta,
}
use procnote.Execution.State.{ExecutionError, ExecutionState}
use procnote.Execution.Describe.{describe}
use procnote.Execution.Apply.{apply}
use procnote.App.Repository.{StagedFile, Decision, has_content}

-- `record_event` is `Record`, which is a keyword here.
pub data Pushed : Type 0 where
  record_event : Decision → Pushed
  conflict : (reason : String) (files : List StagedFile) → Pushed

unfoldable pub referenced_files : Event → List AttachmentRecord
referenced_files (attachments_added _ _ _ _ attachments) = attachments
referenced_files (attachment_received _ _ attachment) = attachment ∷ []
referenced_files (attachment_added _ _ _ _ filename path content_type sha256) =
    record { filename = filename; path = path; content_type = content_type; sha256 = sha256 } ∷ []
referenced_files _ = []

unfoldable pub event_execution_id : Event → Option ExecutionId
event_execution_id (execution_started _ id _ _ _) = some id
event_execution_id (execution_completed _ id _) = some id
event_execution_id (execution_aborted _ id _) = some id
event_execution_id (execution_reopened _ id _) = some id
event_execution_id (step_added _ id _ _ _ _) = some id
event_execution_id (step_skipped _ id _ _) = some id
event_execution_id (step_unskipped _ id _ _) = some id
event_execution_id (checkbox_toggled _ id _ _ _) = some id
event_execution_id (input_recorded _ id _ _ _ _) = some id
event_execution_id (input_cleared _ id _ _ _) = some id
event_execution_id (note_added _ id _ _ _) = some id
event_execution_id (note_removed _ id _ _) = some id
event_execution_id (attachment_added _ id _ _ _ _ _ _) = some id
event_execution_id (attachments_added _ id _ _ _) = some id
event_execution_id (attachment_file_removed _ id _ _ _) = some id
event_execution_id (attachments_cleared _ id _ _) = some id
event_execution_id (attachment_removed _ id _ _ _) = some id
event_execution_id (attachment_received _ id _) = some id
event_execution_id (attachment_assigned _ id _ _ _) = some id
event_execution_id (attachment_unassigned _ id _ _ _) = some id
event_execution_id (execution_renamed _ id _) = some id
event_execution_id (log_meta _ _ _) = none

-- `matches!(event, Event::ExecutionStarted { .. })`
unfoldable pub is_started : Event → Bool
is_started (execution_started _ _ _ _ _) = true
is_started _ = false

-- `==` on `AttachmentRecord`
unfoldable pub record_eq : AttachmentRecord → AttachmentRecord → Bool
record_eq a b =
    a.filename == b.filename
    && (a.path == b.path && (a.content_type == b.content_type && a.sha256 == b.sha256))

unfoldable pub add_file :
    StagedFile → Result String (List StagedFile) → Result String (List StagedFile)
add_file staged (ok files) = ok (staged ∷ files)
add_file staged (err e) = err e

unfoldable pub find_upload : String → List StagedFile → Option StagedFile
find_upload sha256 uploaded = find? (λ (staged : StagedFile). staged.file.sha256 == sha256) uploaded

-- The loop over the files that the event refers to.
unfoldable pub collect_files :
    ExecutionState → List StagedFile → List AttachmentRecord → Result String (List StagedFile)
unfolding add_file
collect_files s uploaded [] = ok []
collect_files s uploaded (file ∷ files) =
    let rest = collect_files s uploaded files in
    elim (find_upload file.sha256 uploaded) [
      | some staged ↦
          if record_eq staged.file file
          then add_file staged rest
          else err (
              append "uploaded file " (
                append staged.file.path (append " doesn't match the attachment record " file.path)))
      | none ↦
          if has_content s file.sha256
          then rest
          else err (append "the content of " (append file.path " wasn't uploaded"))
    ]

-- The checks before the files. `show_id` prints a UUID.
unfoldable pub check_pushed :
    (ExecutionId → String) → ExecutionId → EventRecord → Result String (Unit {0})
check_pushed show_id execution_id r =
    if is_some r.meta.event_id
    then elim (event_execution_id r.event) [
      | none ↦ err "log metadata can't be pushed"
      | some id ↦
          if nat_eq id execution_id
          then if is_started r.event
            then err "executions are started by creating them, not by pushing"
            else ok tt
          else err (append "the event belongs to execution " (show_id id))
    ]
    else err "pushed events need an event_id"

-- The trial of the event on a copy of the state.
unfoldable pub try_pushed : ExecutionState → Event → List StagedFile → Pushed
try_pushed s event files = elim (apply event s).0 [
  | ok _ ↦ Pushed.record_event (record { events = event ∷ []; files = files })
  | err e ↦ Pushed.conflict (describe e) files
]

unfoldable pub decide_pushed :
    (ExecutionId → String)
    → ExecutionId
    → ExecutionState
    → EventRecord
    → List StagedFile
    → Result String Pushed
decide_pushed show_id execution_id s r uploaded = elim (check_pushed show_id execution_id r) [
  | err e ↦ err e
  | ok _ ↦ elim (collect_files s uploaded (referenced_files r.event)) [
    | err e ↦ err e
    | ok files ↦ ok (try_pushed s r.event files)
  ]
]
