-- ===== src/Event.antt =====
-- crates/procnote-core/src/event/types.rs: the events of an execution.
use procnote.Prelude.{ℕ, String, Bool, Option, List}
use procnote.Template.{StepContent}

-- `DateTime<Utc>`: only stored and copied, so an instant is a number.
abbrev pub Timestamp : Type 0
Timestamp = ℕ

-- `Uuid`, by its 128-bit value.
abbrev pub ExecutionId : Type 0
ExecutionId = ℕ

pub record AttachmentRecord : Type 0 where
  pub filename : String
  pub path : String
  pub content_type : String
  pub sha256 : String

pub data CompletionStatus : Type 0 where
  pass fail aborted : CompletionStatus

pub data Event : Type 0 where
  execution_started :
      (at : Timestamp) (execution_id : ExecutionId)
      (procedure_id procedure_title procedure_version : String)
      → Event
  execution_completed :
      (at : Timestamp) (execution_id : ExecutionId) (status : CompletionStatus) → Event
  execution_aborted : (at : Timestamp) (execution_id : ExecutionId) (reason : String) → Event
  execution_reopened : (at : Timestamp) (execution_id : ExecutionId) (reason : String) → Event
  step_added :
      (at : Timestamp) (execution_id : ExecutionId) (step_id heading : String)
      (content : List StepContent) (after_step_id : Option String)
      → Event
  step_skipped : (at : Timestamp) (execution_id : ExecutionId) (step_id reason : String) → Event
  step_unskipped : (at : Timestamp) (execution_id : ExecutionId) (step_id reason : String) → Event
  checkbox_toggled :
      (at : Timestamp) (execution_id : ExecutionId) (step_id checkbox_id : String) (checked : Bool)
      → Event
  input_recorded :
      (at : Timestamp) (execution_id : ExecutionId) (step_id input_id value : String)
      (unit : Option String)
      → Event
  input_cleared :
      (at : Timestamp) (execution_id : ExecutionId) (step_id input_id reason : String) → Event
  note_added :
      (at : Timestamp) (execution_id : ExecutionId) (note_id text : String)
      (step_id : Option String)
      → Event
  note_removed : (at : Timestamp) (execution_id : ExecutionId) (note_id reason : String) → Event
  attachment_added :
      (at : Timestamp) (execution_id : ExecutionId)
      (step_id input_id filename path content_type sha256 : String)
      → Event
  attachments_added :
      (at : Timestamp) (execution_id : ExecutionId) (step_id input_id : String)
      (attachments : List AttachmentRecord)
      → Event
  attachment_file_removed :
      (at : Timestamp) (execution_id : ExecutionId) (step_id input_id path : String) → Event
  attachments_cleared :
      (at : Timestamp) (execution_id : ExecutionId) (step_id input_id : String) → Event
  attachment_removed :
      (at : Timestamp) (execution_id : ExecutionId) (step_id input_id reason : String) → Event
  attachment_received :
      (at : Timestamp) (execution_id : ExecutionId) (attachment : AttachmentRecord) → Event
  attachment_assigned :
      (at : Timestamp) (execution_id : ExecutionId) (step_id input_id path : String) → Event
  attachment_unassigned :
      (at : Timestamp) (execution_id : ExecutionId) (step_id input_id path : String) → Event
  execution_renamed : (at : Timestamp) (execution_id : ExecutionId) (name : String) → Event
  log_meta : (at : Timestamp) (version : ℕ) (tool_version : String) → Event

pub record EventMeta : Type 0 where
  pub event_id : Option ℕ
  pub recorded_by : Option String
  pub device : Option String

pub record EventRecord : Type 0 where
  pub event : Event
  pub meta : EventMeta
