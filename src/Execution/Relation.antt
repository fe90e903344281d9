-- ===== src/Execution/Relation.antt =====
-- crates/procnote-core/src/execution/engine.rs: the moves of a step, as a relation.
use procnote.Prelude.{
  ℕ, String, ◌==◌, Bool, false, ◌≡◌, ◌≢◌, none, some, List, [], ◌∷◌, ◌++◌, map, All, get, insert,
  remove, position, erase_idx,
}
use procnote.Event.{Timestamp, AttachmentRecord}
use procnote.Execution.State.{
  skipped, RecordedInput, RecordedAttachment, ExecutionStepContent, from_record_at, StepState,
}
use procnote.Execution.Sound.{IsSafeFile, IsAttachmentInput, IsScalarInput, DistinctPaths}
use procnote.Execution.Steps.{toggle_content, has_captured_data}

-- The files of an input, none if the input has no entry.
abbrev pub files_of : String → StepState → List RecordedAttachment
files_of input_id step = elim (get input_id step.attachments) [ none ↦ [] | some files ↦ files ]

-- An input with no files has no entry.
abbrev pub with_files : String → List RecordedAttachment → StepState → StepState
with_files input_id [] step = record step { attachments = remove input_id step.attachments }
with_files input_id (file ∷ files) step = record step {
  attachments = insert input_id (file ∷ files) step.attachments;
}

-- The recorded form of a batch of attachments.
abbrev pub recorded : Timestamp → List AttachmentRecord → List RecordedAttachment
recorded at = map (λ r. from_record_at r at)

pub data StepMove (step : StepState) : StepState → Type 0 where
  skips :
      (at : Timestamp) (reason : String)
      → has_captured_data step ≡ false
      → StepMove step (record step { status = skipped at reason })
  toggles :
      (at : Timestamp) (checkbox_id : String) (checked : Bool) (content : List ExecutionStepContent)
      → toggle_content checkbox_id checked at step.content ≡ some content
      → StepMove step (record step { content = content })
  records :
      (input_id : String) (input : RecordedInput)
      → IsScalarInput step.content input_id input.label
      → get input_id step.inputs ≡ none
      → files_of input_id step ≡ []
      → StepMove step (record step { inputs = insert input_id input step.inputs })
  clears :
      (input_id : String) (input : RecordedInput)
      → get input_id step.inputs ≡ some input
      → StepMove step (record step { inputs = remove input_id step.inputs })
  attaches :
      (at : Timestamp) (input_id : String) (attachments : List AttachmentRecord)
      → attachments ≢ []
      → IsAttachmentInput step.content input_id
      → get input_id step.inputs ≡ none
      → DistinctPaths (files_of input_id step ++ recorded at attachments)
      → All IsSafeFile (recorded at attachments)
      → StepMove step (with_files input_id (files_of input_id step ++ recorded at attachments) step)
  detaches :
      (input_id path : String) (index : ℕ)
      → position (λ file. file.path == path) (files_of input_id step) ≡ some index
      → StepMove step (with_files input_id (erase_idx (files_of input_id step) index) step)
  detaches_all :
      (input_id : String)
      → files_of input_id step ≢ []
      → StepMove step (with_files input_id [] step)
