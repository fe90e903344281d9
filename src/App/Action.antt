-- ===== src/App/Action.antt =====
-- crates/procnote-app/src/action.rs: the actions that the user interface asks for.
use procnote.Prelude.{String, Bool, Option, List}
use procnote.Template.{StepContent}
use procnote.Event.{CompletionStatus}

pub record AttachmentSource : Type 0 where
  pub filename : String
  pub path : String
  pub content_type : String

pub data ExecutionAction : Type 0 where
  skip_step unskip_step : (step_id reason : String) → ExecutionAction
  toggle_checkbox : (step_id checkbox_id : String) (checked : Bool) → ExecutionAction
  record_input : (step_id input_id value : String) (unit : Option String) → ExecutionAction
  clear_input : (step_id input_id reason : String) → ExecutionAction
  add_note : (text : String) (step_id : Option String) → ExecutionAction
  remove_note : (note_id reason : String) → ExecutionAction
  add_step :
      (step_id heading : String) (content : List StepContent) (after_step_id : Option String)
      → ExecutionAction
  add_attachment : (step_id input_id filename path content_type : String) → ExecutionAction
  add_attachments : (step_id input_id : String) (files : List AttachmentSource) → ExecutionAction
  remove_attachment_file : (step_id input_id path : String) → ExecutionAction
  clear_attachments : (step_id input_id : String) → ExecutionAction
  remove_attachment : (step_id input_id reason : String) → ExecutionAction
  assign_attachment unassign_attachment : (step_id input_id path : String) → ExecutionAction
  complete : (status : CompletionStatus) → ExecutionAction
  abort : (reason : String) → ExecutionAction
  rename_execution : (name : String) → ExecutionAction
  reopen_execution : (reason : String) → ExecutionAction
