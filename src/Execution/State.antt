-- ===== src/Execution/State.antt =====
-- crates/procnote-core/src/execution/engine.rs: the errors and the state of an execution.
use procnote.Prelude.{ℕ, String, Bool, Option, none, List, [], Keyed, Exec}
use procnote.Template.{InputDefinition, TableAlignment}
use procnote.Event.{Timestamp, ExecutionId, CompletionStatus, AttachmentRecord}

pub data ExecutionError : Type 0 where
  not_started already_started already_finished not_finished : ExecutionError
  step_not_found step_already_skipped step_not_skipped step_has_captured_data :
      String → ExecutionError
  duplicate_step_id duplicate_note_id checkbox_not_found : String → ExecutionError
  input_already_recorded input_not_recorded input_not_found input_is_attachment :
      String → ExecutionError
  attachment_not_found attachment_already_exists attachment_input_not_found :
      String → ExecutionError
  empty_attachment_batch : ExecutionError
  note_not_found after_step_not_found invalid_attachment_path : String → ExecutionError
  replay_metadata_event : ExecutionError

pub data ExecutionStatus : Type 0 where
  pending active : ExecutionStatus
  finished : CompletionStatus → ExecutionStatus

pub data StepStatus : Type 0 where
  present : StepStatus
  skipped : (at : Timestamp) (reason : String) → StepStatus

pub record ExecutionCheckbox : Type 0 where
  pub id : String
  pub text : String
  pub initial_checked : Bool
  pub checked : Bool
  pub nesting_level : ℕ
  pub toggled_at : Option Timestamp

pub data ExecutionTableCell : Type 0 where
  text : String → ExecutionTableCell
  input : String → ExecutionTableCell
  checkbox : ExecutionCheckbox → ExecutionTableCell

pub data ExecutionStepContent : Type 0 where
  prose : (text : String) → ExecutionStepContent
  checkbox : ExecutionCheckbox → ExecutionStepContent
  input_block : (inputs : List InputDefinition) → ExecutionStepContent
  table :
      (alignments : List TableAlignment) (header : List String)
      (rows : List (List ExecutionTableCell))
      → ExecutionStepContent

pub record RecordedInput : Type 0 where
  pub label : String
  pub value : String
  pub unit : Option String
  pub at : Timestamp

pub record RecordedAttachment : Type 0 where
  pub filename : String
  pub path : String
  pub content_type : String
  pub sha256 : String
  pub at : Timestamp

unfoldable pub from_record_at : AttachmentRecord → Timestamp → RecordedAttachment
from_record_at r at = record {
  filename = r.filename;
  path = r.path;
  content_type = r.content_type;
  sha256 = r.sha256;
  at = at;
}

unfoldable pub to_record : RecordedAttachment → AttachmentRecord
to_record f = record {
  filename = f.filename;
  path = f.path;
  content_type = f.content_type;
  sha256 = f.sha256;
}

pub record RecordedNote : Type 0 where
  pub id : String
  pub text : String
  pub at : Timestamp

pub record StepState : Type 0 where
  pub id : String
  pub heading : String
  pub status : StepStatus
  pub content : List ExecutionStepContent
  pub inputs : Keyed RecordedInput
  pub attachments : Keyed (List RecordedAttachment)
  pub notes : List RecordedNote

pub record ExecutionState : Type 0 where
  pub execution_id : Option ExecutionId
  pub procedure_id : Option String
  pub procedure_title : Option String
  pub procedure_version : Option String
  pub name : Option String
  pub status : ExecutionStatus
  pub started_at : Option Timestamp
  pub finished_at : Option Timestamp
  pub updated_at : Option Timestamp
  pub step_order : List String
  pub steps : Keyed StepState
  pub global_notes : List RecordedNote
  pub inbox : List RecordedAttachment
  pub applied_events : ℕ  -- u64

unfoldable pub new : ExecutionState
new = record {
  execution_id = none;
  procedure_id = none;
  procedure_title = none;
  procedure_version = none;
  name = none;
  status = ExecutionStatus.pending;
  started_at = none;
  finished_at = none;
  updated_at = none;
  step_order = [];
  steps = [];
  global_notes = [];
  inbox = [];
  applied_events = 0;
}

-- A method on `&mut ExecutionState`, and one on `&mut StepState`.
abbrev pub Action : Type 0 → Type 0
Action = Exec ExecutionError ExecutionState

abbrev pub StepAction : Type 0 → Type 0
StepAction = Exec ExecutionError StepState
