-- ===== src/Execution/Sound.antt =====
-- crates/procnote-core/src/execution/engine.rs: the invariant on steps and on the inbox.
pub mod Paths
pub mod Preserved
use procnote.Prelude.{
  String, ◌==◌, Bool, true, false, ◌≡◌, ◌≢◌, some, List, [], ◌∷◌, any, is_empty, All, AllEntries,
  codes,
}
use procnote.Template.{InputDefinition, InputType}
use procnote.Execution.State.{
  StepStatus, present, skipped, RecordedAttachment, ExecutionStepContent, StepState, ExecutionState,
}
use procnote.Execution.Steps.{input_definition, has_captured_data}
use procnote.Execution.Attachments.{is_bad_path}

-- The stored path was accepted by `validate_attachment_path`.
abbrev pub IsSafeFile : RecordedAttachment → Type 0
IsSafeFile file = is_bad_path (codes file.path) ≡ false

abbrev pub has_path : String → List RecordedAttachment → Bool
has_path path files = any files (λ file. file.path == path)

-- No two files have the same path.
abbrev pub DistinctPaths : List RecordedAttachment → Type 0
DistinctPaths [] = Unit
DistinctPaths (file ∷ files) = (has_path file.path files ≡ false) × DistinctPaths files

-- The input is defined in the step's content, and it takes attachments.
abbrev pub IsAttachmentInput : List ExecutionStepContent → String → Type 0
IsAttachmentInput content input_id =
    (d : InputDefinition) × (input_definition content input_id ≡ some d)
    × (d.input_type ≡ InputType.attachment)

-- The input is defined in the step's content under this label, and it takes a scalar.
abbrev pub IsScalarInput : List ExecutionStepContent → String → String → Type 0
IsScalarInput content input_id label =
    (d : InputDefinition) × (input_definition content input_id ≡ some d)
    × (d.input_type ≢ InputType.attachment)
    × (d.label ≡ label)

pub record IsSoundEntry (content : List ExecutionStepContent) (input_id : String)
    (files : List RecordedAttachment) : Type 0 where
  pub nonempty : is_empty files ≡ false
  pub distinct : DistinctPaths files
  pub safe : All IsSafeFile files
  pub takes_files : IsAttachmentInput content input_id

abbrev pub is_skipped : StepStatus → Bool
is_skipped present = false
is_skipped (skipped _ _) = true

pub record IsSound (step : StepState) : Type 0 where
  pub attachments : AllEntries (IsSoundEntry step.content) step.attachments
  pub inputs :
      AllEntries
        (λ input_id recorded. IsScalarInput step.content input_id recorded.label)
        step.inputs
  pub skipped_empty : is_skipped step.status ≡ true → has_captured_data step ≡ false

pub record IsSoundState (s : ExecutionState) : Type 0 where
  pub steps : AllEntries (λ step_id step. (step.id ≡ step_id) × IsSound step) s.steps
  pub inbox : All IsSafeFile s.inbox
