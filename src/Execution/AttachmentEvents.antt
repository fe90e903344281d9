-- ===== src/Execution/AttachmentEvents.antt =====
-- crates/procnote-core/src/execution/engine.rs: the arms of `apply` for attachments and the inbox.
use procnote.Prelude.{
  pure, String, ◌==◌, Bool, ◌||◌, Option, none, some, List, [], ◌∷◌, ◌++◌, ok_or, raise, lift, gets,
  put, ◌>>=◌, ◌>>◌, get, values, any, position, erase_idx, get_elem?, find?, if◌then◌else◌,
}
use procnote.Event.{Timestamp, AttachmentRecord}
use procnote.Execution.State.{
  ExecutionError, RecordedAttachment, from_record_at, to_record, ExecutionState, Action, StepAction,
}
use procnote.Execution.Guards.{require_active, on_present_step}
use procnote.Execution.Attachments.{
  validate_attachment_path, validate_attachment_paths, add_attachments_to_step,
  remove_attachment_file_from_step, clear_attachments_from_step,
}

-- `AttachmentAdded`
unfoldable pub apply_attachment_added :
    Timestamp → String → String → AttachmentRecord → Action (Unit {0})
unfolding require_active on_present_step
apply_attachment_added at step_id input_id attachment = do
  require_active
  lift (validate_attachment_path attachment.path)
  on_present_step step_id (add_attachments_to_step input_id (attachment ∷ []) at)

unfoldable pub apply_attachments_added :
    Timestamp → String → String → List AttachmentRecord → Action (Unit {0})
unfolding require_active on_present_step
apply_attachments_added at step_id input_id attachments = do
  require_active
  lift (validate_attachment_paths attachments)
  on_present_step step_id (add_attachments_to_step input_id attachments at)

unfoldable pub apply_attachment_file_removed : String → String → String → Action (Unit {0})
unfolding require_active on_present_step
apply_attachment_file_removed step_id input_id path = do
  require_active
  lift (validate_attachment_path path)
  on_present_step step_id (remove_attachment_file_from_step input_id path)

-- `AttachmentsCleared`, and `AttachmentRemoved` of older logs
unfoldable pub apply_attachments_cleared : String → String → Action (Unit {0})
unfolding require_active on_present_step
apply_attachments_cleared step_id input_id = do
  require_active
  on_present_step step_id (clear_attachments_from_step input_id)

unfoldable pub has_path : String → List RecordedAttachment → Bool
has_path path files = any files (λ file. file.path == path)

-- Whether a file with this path is in the inbox or on an input.
unfoldable pub has_attachment_path : String → ExecutionState → Bool
unfolding has_path
has_attachment_path path s =
    has_path path s.inbox
    || any (values s.steps) (λ step. any (values step.attachments) (has_path path))

unfoldable pub apply_attachment_received : Timestamp → AttachmentRecord → Action (Unit {0})
unfolding require_active has_attachment_path
apply_attachment_received at attachment = do
  require_active
  lift (validate_attachment_path attachment.path)
  s ← gets (λ s. s)
  if has_attachment_path attachment.path s
      then raise (ExecutionError.attachment_already_exists attachment.path)
      else put (record s { inbox = s.inbox ++ from_record_at attachment at ∷ [] })

-- The inbox file goes to the input first, and leaves the inbox after that.
unfoldable pub apply_attachment_assigned : Timestamp → String → String → String → Action (Unit {0})
unfolding require_active on_present_step
apply_attachment_assigned at step_id input_id path = do
  require_active
  s ← gets (λ s. s)
  index ← lift (
      ok_or (position (λ file. file.path == path) s.inbox)
        (ExecutionError.attachment_not_found path))
  file ← lift (ok_or (get_elem? s.inbox index) (ExecutionError.attachment_not_found path))
  on_present_step step_id (add_attachments_to_step input_id (to_record file ∷ []) at)
  s' ← gets (λ s. s)
  put (record s' { inbox = erase_idx s'.inbox index })

-- `step.attachments.get(input_id).and_then(|files| files.iter().find(..))`
unfoldable pub attached_file : String → Option (List RecordedAttachment) → Option RecordedAttachment
attached_file path none = none
attached_file path (some files) = find? (λ file. file.path == path) files

-- The file is looked up before it is removed from its input.
unfoldable pub take_file : String → String → StepAction AttachmentRecord
take_file input_id path = do
  step ← gets (λ s. s)
  file ← lift (
      ok_or (attached_file path (get input_id step.attachments))
        (ExecutionError.attachment_not_found path))
  remove_attachment_file_from_step input_id path
  pure (to_record file)

unfoldable pub apply_attachment_unassigned :
    Timestamp → String → String → String → Action (Unit {0})
unfolding require_active on_present_step take_file
apply_attachment_unassigned at step_id input_id path = do
  require_active
  file ← on_present_step step_id (take_file input_id path)
  s ← gets (λ s. s)
  put (record s { inbox = s.inbox ++ from_record_at file at ∷ [] })
