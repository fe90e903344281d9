-- ===== src/Execution/Transition.antt =====
-- crates/procnote-core/src/execution/engine.rs: the moves of an execution, as a relation.
pub mod StepMoves
pub mod AttachMoves
pub mod Guarded
pub mod Outcomes
pub mod AttachmentOutcomes
pub mod InboxOutcomes
pub mod Reach
pub mod Soundness
use procnote.Prelude.{
  ℕ, String, ◌==◌, true, false, ◌≡◌, Option, none, some, List, [], ◌∷◌, ◌++◌, Result, ok, err,
  Keyed, get, insert, position, erase_idx, get_elem?, codes,
}
use procnote.Template.{StepContent}
use procnote.Event.{Timestamp, ExecutionId, AttachmentRecord, CompletionStatus}
use procnote.Execution.State.{
  pending, active, finished, present, RecordedNote, RecordedAttachment, StepState, ExecutionState,
  ExecutionError, from_record_at,
}
use procnote.Execution.Sound.{is_skipped}
use procnote.Execution.Checkboxes.{execution_content_with_checkbox_ids}
use procnote.Execution.Attachments.{is_bad_path}
use procnote.Execution.NoteEvents.{note_exists, without_note, without_step_note}
use procnote.Execution.AttachmentEvents.{has_attachment_path}
use procnote.Execution.StepEvents.{insert_position, insert_or_push}
use procnote.Execution.Relation.{StepMove}

-- A step as `StepAdded` makes it.
abbrev pub new_step : String → String → List StepContent → StepState
new_step step_id heading content = record {
  id = step_id;
  heading = heading;
  status = present;
  content = execution_content_with_checkbox_ids step_id content;
  inputs = [];
  attachments = [];
  notes = [];
}

abbrev pub write_step : String → StepState → ExecutionState → ExecutionState
write_step step_id step s = record s { steps = insert step_id step s.steps }

pub data Transition (s : ExecutionState) : ExecutionState → Type 0 where
  starts :
      (at : Timestamp) (execution_id : ExecutionId) (procedure_id title version : String)
      → s.status ≡ pending
      → Transition s (record s {
        execution_id = some execution_id;
        procedure_id = some procedure_id;
        procedure_title = some title;
        procedure_version = some version;
        status = active;
        started_at = some at;
        finished_at = none;
      })
  finishes :
      (at : Timestamp) (status : CompletionStatus)
      → s.status ≡ active
      → Transition s (record s { status = finished status; finished_at = some at })
  reopens :
      (was : CompletionStatus)
      → s.status ≡ finished was
      → Transition s (record s { status = active; finished_at = none })
  renames :
      (name : String) (execution_id : ExecutionId)
      → s.execution_id ≡ some execution_id
      → Transition s (record s { name = some name })
  adds_step :
      (step_id heading : String) (content : List StepContent) (after : Option String)
      (place : Option ℕ)
      → s.status ≡ active
      → get step_id s.steps ≡ none
      → insert_position after s.step_order ≡ ok place
      → Transition s (record s {
        steps = insert step_id (new_step step_id heading content) s.steps;
        step_order = insert_or_push place step_id s.step_order;
      })
  unskips :
      (step_id : String) (step : StepState)
      → s.status ≡ active
      → get step_id s.steps ≡ some step
      → is_skipped step.status ≡ true
      → Transition s (write_step step_id (record step { status = present }) s)
  moves :
      (step_id : String) (step step' : StepState)
      → s.status ≡ active
      → get step_id s.steps ≡ some step
      → step.status ≡ present
      → StepMove step step'
      → Transition s (write_step step_id step' s)
  adds_note :
      (note : RecordedNote)
      → s.status ≡ active
      → note_exists note.id s ≡ false
      → Transition s (record s { global_notes = s.global_notes ++ note ∷ [] })
  adds_step_note :
      (step_id : String) (step : StepState) (note : RecordedNote)
      → s.status ≡ active
      → get step_id s.steps ≡ some step
      → step.status ≡ present
      → note_exists note.id s ≡ false
      → Transition s (write_step step_id (record step { notes = step.notes ++ note ∷ [] }) s)
  removes_note :
      (note_id : String) (notes : List RecordedNote)
      → s.status ≡ active
      → without_note note_id s.global_notes ≡ some notes
      → Transition s (record s { global_notes = notes })
  removes_step_note :
      (note_id : String) (steps : Keyed StepState)
      → s.status ≡ active
      → without_step_note note_id s.steps ≡ some steps
      → Transition s (record s { steps = steps })
  receives :
      (at : Timestamp) (attachment : AttachmentRecord)
      → s.status ≡ active
      → is_bad_path (codes attachment.path) ≡ false
      → has_attachment_path attachment.path s ≡ false
      → Transition s (record s { inbox = s.inbox ++ from_record_at attachment at ∷ [] })
  assigns :
      (path : String) (index : ℕ) (file : RecordedAttachment) (step_id : String)
      (step step' : StepState)
      → s.status ≡ active
      → position (λ f. f.path == path) s.inbox ≡ some index
      → get_elem? s.inbox index ≡ some file
      → get step_id s.steps ≡ some step
      → step.status ≡ present
      → StepMove step step'
      → Transition s
          (record s { steps = insert step_id step' s.steps; inbox = erase_idx s.inbox index })
  unassigns :
      (at : Timestamp) (file : AttachmentRecord) (step_id : String) (step step' : StepState)
      → s.status ≡ active
      → is_bad_path (codes file.path) ≡ false
      → get step_id s.steps ≡ some step
      → step.status ≡ present
      → StepMove step step'
      → Transition s (record s {
        steps = insert step_id step' s.steps;
        inbox = s.inbox ++ from_record_at file at ∷ [];
      })

-- An accepted event makes a transition; a refused one changes nothing.
abbrev pub Outcome :
    {A : Type 0} → ExecutionState → Result ExecutionError A → ExecutionState → Type 0
Outcome s (ok a) s' = Transition s s'
Outcome s (err e) s' = s' ≡ s
