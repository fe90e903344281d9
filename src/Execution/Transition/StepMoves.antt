-- ===== src/Execution/Transition/StepMoves.antt =====
-- crates/procnote-core/src/execution/engine.rs: the methods on a step, against `StepMove`.
use procnote.Prelude.{
  ℕ, String, ◌==◌, Bool, ◌≡◌, refl, sym, ap, subst, inl, inr, Option, some, List, [], ◌∷◌, Result,
  ok, err, arith, get, position, erase_idx, AllEntries-get, remove_absent, remove-insert,
  Bool-cases, Option-cases, Result-cases,
}
use procnote.Event.{Timestamp}
use procnote.Execution.State.{
  ExecutionError, RecordedInput, RecordedAttachment, StepState, StepAction,
}
use procnote.Execution.Steps.{
  input_definition, toggle_content, has_captured_data, scalar_input_label, require_attachment_input,
}
use procnote.Execution.Attachments.{
  remove_attachment_file_from_step, clear_attachments_from_step, write_files,
}
use procnote.Execution.StepEvents.{skip, toggle, record_input_value, clear_input_value}
use procnote.Execution.Sound.{IsSound, IsAttachmentInput, IsScalarInput}
use procnote.Execution.Relation.{StepMove, files_of, with_files}

-- What a method may leave behind: a failure changes nothing.
abbrev pub StepOutcome : {A : Type 0} → StepState → Result ExecutionError A → StepState → Type 0
StepOutcome step (ok a) step' = StepMove step step'
StepOutcome step (err e) step' = step' ≡ step

abbrev pub Moves : {A : Type 0} → StepAction A → Type 0
Moves m = (step : StepState) → IsSound step → StepOutcome step (m step).0 (m step).1

pub skip-Moves : (at : Timestamp) (step_id reason : String) → Moves (skip at step_id reason)
unfolding skip
skip-Moves at step_id reason step h = elim (Bool-cases (has_captured_data step)) [
  | inl captured ↦ rw captured refl
  | inr clean ↦ rw clean (StepMove.skips at reason clean)
]

pub toggle-Moves : (at : Timestamp) (id : String) (checked : Bool) → Moves (toggle at id checked)
unfolding toggle
toggle-Moves at id checked step h =
    elim (Option-cases (toggle_content id checked at step.content)) [
      | inl missing ↦ rw missing refl
      | inr (content, found) ↦ rw found (StepMove.toggles at id checked content found)
    ]

scalar_input_label_cases :
    (step : StepState) (input_id label : String)
    → scalar_input_label step input_id ≡ ok label
    → IsScalarInput step.content input_id label
unfolding scalar_input_label
scalar_input_label_cases step input_id label h =
    elim (Option-cases (input_definition step.content input_id)) [
      | inl missing ↦ ground (arith, missing)
      | inr (d, found) ↦ (d, found, ground (arith, found), ground (arith, found))
    ]

pub clear_input_value-Moves : (input_id : String) → Moves (clear_input_value input_id)
unfolding clear_input_value
clear_input_value-Moves input_id step h = elim (Option-cases (get input_id step.inputs)) [
  | inl missing ↦
      rw missing (ap (λ m. record step { inputs = m }) (remove_absent input_id step.inputs missing))
  | inr (input, found) ↦ rw found (StepMove.clears input_id input found)
]

pub files_of-get :
    (input_id : String) (step : StepState) (files : List RecordedAttachment)
    → get input_id step.attachments ≡ some files
    → files_of input_id step ≡ files
files_of-get input_id step files found = rw (found, files_of)

get_empty :
    (input_id : String) (step : StepState)
    → IsSound step
    → get input_id step.attachments ≡ some []
    → ⊥
get_empty input_id step h found =
    cc (AllEntries-get _ input_id [] step.attachments h.attachments found).nonempty

pub clear_attachments_from_step-Moves :
    (input_id : String) → Moves (clear_attachments_from_step input_id)
unfolding clear_attachments_from_step
clear_attachments_from_step-Moves input_id step h =
    elim (Option-cases (get input_id step.attachments)) [
      | inl missing ↦
          rw missing (ap (λ m. record step { attachments = m }) (remove_absent input_id _ missing))
      | inr ([], found) ↦ absurd (get_empty input_id step h found)
      | inr (file ∷ files, found) ↦
          rw found
            (StepMove.detaches_all input_id (λ e. cc (e, files_of-get input_id step _ found)))
    ]

-- The two writes of an emptied entry are one.
pub detaches_get :
    (input_id path : String) (step : StepState) (files : List RecordedAttachment) (index : ℕ)
    → get input_id step.attachments ≡ some files
    → position (λ file. file.path == path) files ≡ some index
    → StepMove step (with_files input_id (erase_idx files index) step)
detaches_get input_id path step files index found at =
    let e = files_of-get input_id step files found in
    subst (λ fs. StepMove step (with_files input_id (erase_idx fs index) step)) e
      (StepMove.detaches input_id path index
        (subst (λ fs. position (λ file. file.path == path) fs ≡ some index) (sym e) at))

pub write_files-with_files :
    (input_id : String) (files : List RecordedAttachment) (step : StepState)
    → write_files input_id files step ≡ with_files input_id files step
unfolding write_files
write_files-with_files input_id [] step =
    ap (λ m. record step { attachments = m }) (remove-insert input_id [] step.attachments)
write_files-with_files input_id (file ∷ files) step = refl

pub remove_attachment_file_from_step-Moves :
    (input_id path : String) → Moves (remove_attachment_file_from_step input_id path)
unfolding remove_attachment_file_from_step
remove_attachment_file_from_step-Moves input_id path step h =
    elim (Option-cases (get input_id step.attachments)) [
      | inl missing ↦ rw missing refl
      | inr (files, found) ↦ elim (Option-cases (position (λ file. file.path == path) files)) [
        | inl missing ↦ rw (found, missing) refl
        | inr (index, at) ↦
            rw (found, at)
              (subst (StepMove step)
                (sym (write_files-with_files input_id (erase_idx files index) step))
                (detaches_get input_id path step files index found at))
      ]
    ]

-- The value goes in where the input has neither a value nor a file.
record_scalar :
    (at : Timestamp) (input_id value label : String) (unit : Option String) (step : StepState)
    → scalar_input_label step input_id ≡ ok label
    → StepOutcome step
        (record_input_value at input_id value unit step).0
        (record_input_value at input_id value unit step).1
unfolding record_input_value
record_scalar at input_id value label unit step found =
    elim (Option-cases (get input_id step.inputs)) [
      | inr (old, there) ↦ rw (found, there) refl
      | inl free ↦ elim (Option-cases (get input_id step.attachments)) [
        | inl no_entry ↦
            rw (found, free, no_entry)
              (StepMove.records input_id input scalar free (rw (no_entry, files_of)))
        | inr ([], entry) ↦
            rw (found, free, entry)
              (StepMove.records input_id input scalar free (rw (entry, files_of)))
        | inr (file ∷ files, entry) ↦ rw (found, free, entry) refl
      ]
    ]
  where
    input : RecordedInput
    input = record { label = label; value = value; unit = unit; at = at }

    scalar : IsScalarInput step.content input_id label
    scalar = scalar_input_label_cases step input_id label found

pub record_input_value-Moves :
    (at : Timestamp) (input_id value : String) (unit : Option String)
    → Moves (record_input_value at input_id value unit)
unfolding record_input_value
record_input_value-Moves at input_id value unit step h =
    elim (Result-cases (scalar_input_label step input_id)) [
      | inl (e, wrong) ↦ rw wrong refl
      | inr (label, found) ↦ record_scalar at input_id value label unit step found
    ]

pub require_attachment_input_cases :
    (step : StepState) (input_id : String) (done : Unit {0})
    → require_attachment_input step input_id ≡ ok done
    → IsAttachmentInput step.content input_id
unfolding require_attachment_input
require_attachment_input_cases step input_id done h =
    elim (Option-cases (input_definition step.content input_id)) [
      | inl missing ↦ ground (arith, missing)
      | inr (d, found) ↦ (d, found, ground (arith, found))
    ]
