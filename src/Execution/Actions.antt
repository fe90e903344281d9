-- ===== src/Execution/Actions.antt =====
-- crates/procnote-core/src/execution/engine.rs: the methods that build an event for an action, check
-- it on a copy of the state, and (those without `_event`) apply it. `Utc::now()` is the argument
-- `now`, and a new UUID as text is the argument `note_id`.
pub mod Checked
use procnote.Prelude.{String, Bool, Option, List, [], ◌∷◌, ok, err, ok_or, pure, ◌>>=◌, ◌>>◌}
use procnote.Template.{StepContent}
use procnote.Event.{
  Timestamp, ExecutionId, AttachmentRecord, CompletionStatus, Event, execution_completed,
  execution_aborted, execution_reopened, step_added, step_skipped, step_unskipped, checkbox_toggled,
  input_recorded, input_cleared, note_added, note_removed, attachments_added,
  attachment_file_removed, attachments_cleared, attachment_received, attachment_assigned,
  attachment_unassigned, execution_renamed,
}
use procnote.Execution.State.{ExecutionError, Action}
use procnote.Execution.Guards.{require_active, require_finished}
use procnote.Execution.Apply.{apply}

unfoldable pub require_execution_id : Action ExecutionId
require_execution_id s = (ok_or s.execution_id ExecutionError.not_started, s)

-- The event is applied to a copy, which is dropped.
unfoldable pub validated_candidate : Event → Action Event
validated_candidate event s = (elim (apply event s).0 [ ok _ ↦ ok event | err e ↦ err e ], s)

unfoldable pub rename_event : Timestamp → String → Action Event
rename_event now name = do
  id ← require_execution_id
  validated_candidate (execution_renamed now id name)

unfoldable pub add_step_event :
    Timestamp → String → String → List StepContent → Option String → Action Event
add_step_event now step_id heading content after_step_id = do
  require_active
  id ← require_execution_id
  validated_candidate (step_added now id step_id heading content after_step_id)

unfoldable pub skip_step_event : Timestamp → String → String → Action Event
skip_step_event now step_id reason = do
  require_active
  id ← require_execution_id
  validated_candidate (step_skipped now id step_id reason)

unfoldable pub unskip_step_event : Timestamp → String → String → Action Event
unskip_step_event now step_id reason = do
  require_active
  id ← require_execution_id
  validated_candidate (step_unskipped now id step_id reason)

unfoldable pub toggle_checkbox_event : Timestamp → String → String → Bool → Action Event
toggle_checkbox_event now step_id checkbox_id checked = do
  require_active
  id ← require_execution_id
  validated_candidate (checkbox_toggled now id step_id checkbox_id checked)

unfoldable pub record_input_event :
    Timestamp → String → String → String → Option String → Action Event
record_input_event now step_id input_id value unit = do
  require_active
  id ← require_execution_id
  validated_candidate (input_recorded now id step_id input_id value unit)

unfoldable pub clear_input_event : Timestamp → String → String → String → Action Event
clear_input_event now step_id input_id reason = do
  require_active
  id ← require_execution_id
  validated_candidate (input_cleared now id step_id input_id reason)

unfoldable pub add_note_event : Timestamp → String → String → Option String → Action Event
add_note_event now note_id text step_id = do
  require_active
  id ← require_execution_id
  validated_candidate (note_added now id note_id text step_id)

unfoldable pub remove_note_event : Timestamp → String → String → Action Event
remove_note_event now note_id reason = do
  require_active
  id ← require_execution_id
  validated_candidate (note_removed now id note_id reason)

unfoldable pub add_attachments_event :
    Timestamp → String → String → List AttachmentRecord → Action Event
add_attachments_event now step_id input_id attachments = do
  require_active
  id ← require_execution_id
  validated_candidate (attachments_added now id step_id input_id attachments)

unfoldable pub add_attachment_event :
    Timestamp → String → String → String → String → String → String → Action Event
add_attachment_event now step_id input_id filename path content_type sha256 =
    add_attachments_event now step_id input_id (
      record { filename = filename; path = path; content_type = content_type; sha256 = sha256 }
      ∷ [])

unfoldable pub receive_attachment_event : Timestamp → AttachmentRecord → Action Event
receive_attachment_event now attachment = do
  require_active
  id ← require_execution_id
  validated_candidate (attachment_received now id attachment)

unfoldable pub assign_attachment_event : Timestamp → String → String → String → Action Event
assign_attachment_event now step_id input_id path = do
  require_active
  id ← require_execution_id
  validated_candidate (attachment_assigned now id step_id input_id path)

unfoldable pub unassign_attachment_event : Timestamp → String → String → String → Action Event
unassign_attachment_event now step_id input_id path = do
  require_active
  id ← require_execution_id
  validated_candidate (attachment_unassigned now id step_id input_id path)

unfoldable pub remove_attachment_file_event : Timestamp → String → String → String → Action Event
remove_attachment_file_event now step_id input_id path = do
  require_active
  id ← require_execution_id
  validated_candidate (attachment_file_removed now id step_id input_id path)

unfoldable pub clear_attachments_event : Timestamp → String → String → Action Event
clear_attachments_event now step_id input_id = do
  require_active
  id ← require_execution_id
  validated_candidate (attachments_cleared now id step_id input_id)

unfoldable pub remove_attachment_event : Timestamp → String → String → String → Action Event
remove_attachment_event now step_id input_id _ = clear_attachments_event now step_id input_id

unfoldable pub complete_event : Timestamp → CompletionStatus → Action Event
complete_event now status = do
  require_active
  id ← require_execution_id
  validated_candidate (execution_completed now id status)

unfoldable pub abort_event : Timestamp → String → Action Event
abort_event now reason = do
  require_active
  id ← require_execution_id
  validated_candidate (execution_aborted now id reason)

unfoldable pub reopen_event : Timestamp → String → Action Event
reopen_event now reason = do
  require_finished
  id ← require_execution_id
  validated_candidate (execution_reopened now id reason)

-- The body of every mutating action: `let event = self.…_event(…)?; self.apply(&event)?; Ok(event)`.
unfoldable pub perform : Action Event → Action Event
perform build = do event ← build; apply event; pure event

unfoldable pub rename : Timestamp → String → Action Event
rename now name = perform (rename_event now name)

unfoldable pub add_step :
    Timestamp → String → String → List StepContent → Option String → Action Event
add_step now step_id heading content after_step_id =
    perform (add_step_event now step_id heading content after_step_id)

unfoldable pub skip_step : Timestamp → String → String → Action Event
skip_step now step_id reason = perform (skip_step_event now step_id reason)

unfoldable pub unskip_step : Timestamp → String → String → Action Event
unskip_step now step_id reason = perform (unskip_step_event now step_id reason)

unfoldable pub toggle_checkbox : Timestamp → String → String → Bool → Action Event
toggle_checkbox now step_id checkbox_id checked =
    perform (toggle_checkbox_event now step_id checkbox_id checked)

unfoldable pub record_input : Timestamp → String → String → String → Option String → Action Event
record_input now step_id input_id value unit =
    perform (record_input_event now step_id input_id value unit)

unfoldable pub clear_input : Timestamp → String → String → String → Action Event
clear_input now step_id input_id reason = perform (clear_input_event now step_id input_id reason)

unfoldable pub add_note : Timestamp → String → String → Option String → Action Event
add_note now note_id text step_id = perform (add_note_event now note_id text step_id)

unfoldable pub remove_note_action : Timestamp → String → String → Action Event
remove_note_action now note_id reason = perform (remove_note_event now note_id reason)

unfoldable pub add_attachment :
    Timestamp → String → String → String → String → String → String → Action Event
add_attachment now step_id input_id filename path content_type sha256 =
    perform (add_attachment_event now step_id input_id filename path content_type sha256)

unfoldable pub add_attachments : Timestamp → String → String → List AttachmentRecord → Action Event
add_attachments now step_id input_id attachments =
    perform (add_attachments_event now step_id input_id attachments)

unfoldable pub remove_attachment_file : Timestamp → String → String → String → Action Event
remove_attachment_file now step_id input_id path =
    perform (remove_attachment_file_event now step_id input_id path)

unfoldable pub clear_attachments : Timestamp → String → String → Action Event
clear_attachments now step_id input_id = perform (clear_attachments_event now step_id input_id)

unfoldable pub remove_attachment : Timestamp → String → String → String → Action Event
remove_attachment now step_id input_id reason =
    perform (remove_attachment_event now step_id input_id reason)

unfoldable pub complete : Timestamp → CompletionStatus → Action Event
complete now status = perform (complete_event now status)

unfoldable pub abort : Timestamp → String → Action Event
abort now reason = perform (abort_event now reason)

unfoldable pub reopen : Timestamp → String → Action Event
reopen now reason = perform (reopen_event now reason)
