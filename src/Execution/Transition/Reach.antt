-- ===== src/Execution/Transition/Reach.antt =====
-- crates/procnote-core/src/execution/engine.rs: the match of `apply`, against `Transition`.
use procnote.Prelude.{refl}
use procnote.Event.{
  Event, execution_started, execution_completed, execution_aborted, execution_reopened, step_added,
  step_skipped, step_unskipped, checkbox_toggled, input_recorded, input_cleared, note_added,
  note_removed, attachment_added, attachments_added, attachment_file_removed, attachments_cleared,
  attachment_removed, attachment_received, attachment_assigned, attachment_unassigned,
  execution_renamed, log_meta, aborted,
}
use procnote.Execution.State.{ExecutionState}
use procnote.Execution.Apply.{apply_event}
use procnote.Execution.Sound.{IsSoundState}
use procnote.Execution.Transition.{Outcome}
use procnote.Execution.Transition.Guarded.{Leaves}
use procnote.Execution.Transition.Outcomes.{
  apply_started-Outcome, apply_finished-Outcome, apply_reopened-Outcome, apply_renamed-Outcome,
  apply_step_added-Outcome, apply_step_skipped-Outcome, apply_step_unskipped-Outcome,
  apply_checkbox_toggled-Outcome, apply_input_recorded-Outcome, apply_input_cleared-Outcome,
  apply_note_added-Outcome, apply_note_removed-Outcome,
}
use procnote.Execution.Transition.AttachmentOutcomes.{
  apply_attachment_added-Outcome, apply_attachments_added-Outcome,
  apply_attachment_file_removed-Outcome, apply_attachments_cleared-Outcome,
}
use procnote.Execution.Transition.InboxOutcomes.{
  apply_attachment_received-Outcome, apply_attachment_assigned-Outcome,
  apply_attachment_unassigned-Outcome,
}

-- On a sound state the match of `apply` makes a transition, or fails and changes nothing.
pub apply_event-Outcome :
    (event : Event) (s : ExecutionState) → IsSoundState s → Leaves (Outcome s) (apply_event event) s
unfolding apply_event
apply_event-Outcome (execution_started at id p t v) s h = apply_started-Outcome at id p t v s
apply_event-Outcome (execution_completed at id status) s h = apply_finished-Outcome at status s
apply_event-Outcome (execution_aborted at id reason) s h = apply_finished-Outcome at aborted s
apply_event-Outcome (execution_reopened at id reason) s h = apply_reopened-Outcome s
apply_event-Outcome (step_added at id k heading content after) s h =
    apply_step_added-Outcome k heading content after s
apply_event-Outcome (step_skipped at id k reason) s h = apply_step_skipped-Outcome at k reason s h
apply_event-Outcome (step_unskipped at id k reason) s h = apply_step_unskipped-Outcome k s
apply_event-Outcome (checkbox_toggled at id k box checked) s h =
    apply_checkbox_toggled-Outcome at k box checked s h
apply_event-Outcome (input_recorded at id k i value unit) s h =
    apply_input_recorded-Outcome at k i value unit s h
apply_event-Outcome (input_cleared at id k i reason) s h = apply_input_cleared-Outcome k i s h
apply_event-Outcome (note_added at id note text k) s h = apply_note_added-Outcome at note text k s
apply_event-Outcome (note_removed at id note reason) s h = apply_note_removed-Outcome note s
apply_event-Outcome (attachment_added at id k i f p c x) s h =
    apply_attachment_added-Outcome at k i _ s h
apply_event-Outcome (attachments_added at id k i rs) s h =
    apply_attachments_added-Outcome at k i rs s h
apply_event-Outcome (attachment_file_removed at id k i path) s h =
    apply_attachment_file_removed-Outcome k i path s h
apply_event-Outcome (attachments_cleared at id k i) s h = apply_attachments_cleared-Outcome k i s h
apply_event-Outcome (attachment_removed at id k i reason) s h =
    apply_attachments_cleared-Outcome k i s h
apply_event-Outcome (attachment_received at id a) s h = apply_attachment_received-Outcome at a s
apply_event-Outcome (attachment_assigned at id k i path) s h =
    apply_attachment_assigned-Outcome at k i path s h
apply_event-Outcome (attachment_unassigned at id k i path) s h =
    apply_attachment_unassigned-Outcome at k i path s h
apply_event-Outcome (execution_renamed at id name) s h = apply_renamed-Outcome name s
apply_event-Outcome (log_meta at version tool) s h = refl
