-- ===== src/Execution/Apply.antt =====
-- crates/procnote-core/src/execution/engine.rs: `ExecutionState::apply` and `from_events`. The arms of
-- the match stand in the modules that this one uses.
use procnote.Prelude.{
  ◌+◌, ◌%◌, ◌^◌, Option, none, some, List, [], ◌∷◌, Result, ok, err, raise, gets, put, ◌>>=◌, ◌>>◌,
}
use procnote.Event.{Timestamp, aborted}
use procnote.Execution.State.{ExecutionError, ExecutionState, new, Action}
use procnote.Event.{
  Event, execution_started, execution_completed, execution_aborted, execution_reopened, step_added,
  step_skipped, step_unskipped, checkbox_toggled, input_recorded, input_cleared, note_added,
  note_removed, attachment_added, attachments_added, attachment_file_removed, attachments_cleared,
  attachment_removed, attachment_received, attachment_assigned, attachment_unassigned,
  execution_renamed, log_meta,
}
use procnote.Execution.Lifecycle.{apply_started, apply_finished, apply_reopened, apply_renamed}
use procnote.Execution.StepEvents.{
  apply_step_added, apply_step_skipped, apply_step_unskipped, apply_checkbox_toggled,
  apply_input_recorded, apply_input_cleared,
}
use procnote.Execution.NoteEvents.{apply_note_added, apply_note_removed}
use procnote.Execution.AttachmentEvents.{
  apply_attachment_added, apply_attachments_added, apply_attachment_file_removed,
  apply_attachments_cleared, apply_attachment_received, apply_attachment_assigned,
  apply_attachment_unassigned,
}

-- The match of `apply`.
unfoldable pub apply_event : Event → Action (Unit {0})
apply_event (execution_started at id procedure_id title version) =
    apply_started at id procedure_id title version
apply_event (execution_completed at _ status) = apply_finished at status
apply_event (execution_aborted at _ _) = apply_finished at aborted
apply_event (execution_reopened _ _ _) = apply_reopened
apply_event (step_added _ _ step_id heading content after_step_id) =
    apply_step_added step_id heading content after_step_id
apply_event (step_skipped at _ step_id reason) = apply_step_skipped at step_id reason
apply_event (step_unskipped _ _ step_id _) = apply_step_unskipped step_id
apply_event (checkbox_toggled at _ step_id checkbox_id checked) =
    apply_checkbox_toggled at step_id checkbox_id checked
apply_event (input_recorded at _ step_id input_id value unit) =
    apply_input_recorded at step_id input_id value unit
apply_event (input_cleared _ _ step_id input_id _) = apply_input_cleared step_id input_id
apply_event (note_added at _ note_id text step_id) = apply_note_added at note_id text step_id
apply_event (note_removed _ _ note_id _) = apply_note_removed note_id
apply_event (attachment_added at _ step_id input_id filename path content_type sha256) =
    apply_attachment_added at step_id input_id
      (record { filename = filename; path = path; content_type = content_type; sha256 = sha256 })
apply_event (attachments_added at _ step_id input_id attachments) =
    apply_attachments_added at step_id input_id attachments
apply_event (attachment_file_removed _ _ step_id input_id path) =
    apply_attachment_file_removed step_id input_id path
apply_event (attachments_cleared _ _ step_id input_id) = apply_attachments_cleared step_id input_id
apply_event (attachment_removed _ _ step_id input_id _) = apply_attachments_cleared step_id input_id
apply_event (attachment_received at _ attachment) = apply_attachment_received at attachment
apply_event (attachment_assigned at _ step_id input_id path) =
    apply_attachment_assigned at step_id input_id path
apply_event (attachment_unassigned at _ step_id input_id path) =
    apply_attachment_unassigned at step_id input_id path
apply_event (execution_renamed _ _ name) = apply_renamed name
apply_event (log_meta _ _ _) = raise ExecutionError.replay_metadata_event

-- `none` stands for the panic of `unreachable!`.
unfoldable pub transition_event_at : Event → Option Timestamp
transition_event_at (execution_started at _ _ _ _) = some at
transition_event_at (execution_completed at _ _) = some at
transition_event_at (execution_aborted at _ _) = some at
transition_event_at (execution_reopened at _ _) = some at
transition_event_at (step_added at _ _ _ _ _) = some at
transition_event_at (step_skipped at _ _ _) = some at
transition_event_at (step_unskipped at _ _ _) = some at
transition_event_at (checkbox_toggled at _ _ _ _) = some at
transition_event_at (input_recorded at _ _ _ _ _) = some at
transition_event_at (input_cleared at _ _ _ _) = some at
transition_event_at (note_added at _ _ _ _) = some at
transition_event_at (note_removed at _ _ _) = some at
transition_event_at (attachment_added at _ _ _ _ _ _ _) = some at
transition_event_at (attachments_added at _ _ _ _) = some at
transition_event_at (attachment_file_removed at _ _ _ _) = some at
transition_event_at (attachments_cleared at _ _ _) = some at
transition_event_at (attachment_removed at _ _ _ _) = some at
transition_event_at (attachment_received at _ _) = some at
transition_event_at (attachment_assigned at _ _ _ _) = some at
transition_event_at (attachment_unassigned at _ _ _ _) = some at
transition_event_at (execution_renamed at _ _) = some at
transition_event_at (log_meta _ _ _) = none

-- The two assignments behind the match; `applied_events` is a `u64`.
unfoldable pub count_event : Event → Action (Unit {0})
unfolding transition_event_at
count_event event = do
  s ← gets (λ s. s)
  put (record s {
    updated_at = transition_event_at event;
    applied_events = (s.applied_events + 1) % 2 ^ 64;
  })

unfoldable pub apply : Event → Action (Unit {0})
apply event = do apply_event event; count_event event

-- Replay: `LogMeta` is skipped, and the first error ends the fold.
unfoldable pub replay_event : ExecutionState → Event → Result ExecutionError ExecutionState
replay_event s (log_meta _ _ _) = ok s
replay_event s event = let (r, s') = apply event s in elim r [ ok _ ↦ ok s' | err e ↦ err e ]

unfoldable pub replay : ExecutionState → List Event → Result ExecutionError ExecutionState
replay s [] = ok s
replay s (event ∷ events) = elim (replay_event s event) [ ok s' ↦ replay s' events | err e ↦ err e ]

unfoldable pub from_events : List Event → Result ExecutionError ExecutionState
from_events events = replay new events
