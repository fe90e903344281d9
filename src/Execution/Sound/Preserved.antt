-- ===== src/Execution/Sound/Preserved.antt =====
-- crates/procnote-core/src/execution/engine.rs: lemmas on the moves of a step and `IsSound`.
use procnote.Prelude.{
  ℕ, zero, suc, String, Bool, true, ◌≡◌, refl, ap, ◌∙◌, inl, inr, some, List, [], ◌∷◌, ◌++◌, arith,
  get, All, AllEntries-get, AllEntries-insert, AllEntries-remove, Option-cases, erase_idx, position,
}
use procnote.Event.{Timestamp}
use procnote.Execution.State.{
  StepStatus, present, RecordedAttachment, ExecutionStepContent, StepState,
}
use procnote.Execution.Steps.{
  input_definition, toggle_content, toggle_item, has_captured_data, input_definition_of,
}
use procnote.Execution.Sound.{IsSafeFile, DistinctPaths, IsAttachmentInput, is_skipped, IsSound}
use procnote.Execution.Sound.Paths.{DistinctPaths-erase_idx}
use procnote.Execution.Relation.{StepMove, files_of, with_files, recorded}

-- Toggling a checkbox leaves the inputs of the content as they were.
definition_of-toggle_item :
    (id : String) (checked : Bool) (at : Timestamp) (item item' : ExecutionStepContent)
    (input_id : String)
    → toggle_item id checked at item ≡ some item'
    → input_definition_of input_id item' ≡ input_definition_of input_id item
unfolding toggle_item input_definition_of
definition_of-toggle_item id checked at item item' input_id h = ground arith

input_definition-cons :
    (x y : ExecutionStepContent) (xs ys : List ExecutionStepContent) (input_id : String)
    → input_definition_of input_id x ≡ input_definition_of input_id y
    → input_definition xs input_id ≡ input_definition ys input_id
    → input_definition (x ∷ xs) input_id ≡ input_definition (y ∷ ys) input_id
unfolding input_definition
input_definition-cons x y xs ys input_id h k = ground arith

pub input_definition-toggle_content :
    (id : String) (checked : Bool) (at : Timestamp) (content content' : List ExecutionStepContent)
    (input_id : String)
    → toggle_content id checked at content ≡ some content'
    → input_definition content' input_id ≡ input_definition content input_id
unfolding toggle_content
input_definition-toggle_content id checked at [] content' input_id h = cc
input_definition-toggle_content id checked at (item ∷ items) content' input_id h =
    elim (Option-cases (toggle_item id checked at item)) [
      | inr (item', e) ↦
          let q : content' ≡ item' ∷ items = ground arith in
          ap (λ c. input_definition c input_id) q
          ∙ input_definition-cons item' item items items input_id
              (definition_of-toggle_item id checked at item item' input_id e) refl
      | inl unmoved ↦ elim (Option-cases (toggle_content id checked at items)) [
        | inr (items', e) ↦
            let q : content' ≡ item ∷ items' = ground arith in
            ap (λ c. input_definition c input_id) q
            ∙ input_definition-cons item item items' items input_id refl
                (input_definition-toggle_content id checked at items items' input_id e)
        | inl missing ↦ ground arith
      ]
    ]

pub All-append :
    {A : Type 0} (P : A → Type 0) (xs ys : List A) → All P xs → All P ys → All P (xs ++ ys)
All-append P [] ys h k = k
All-append P (x ∷ xs) ys h k = (h.0, All-append P xs ys h.1 k)

pub All-erase_idx :
    {A : Type 0} (P : A → Type 0) (xs : List A) (i : ℕ) → All P xs → All P (erase_idx xs i)
All-erase_idx P [] i h = tt
All-erase_idx P (x ∷ xs) zero h = h.1
All-erase_idx P (x ∷ xs) (suc i) h = (h.0, All-erase_idx P xs i h.1)

pub All-map :
    {A : Type 0} (P Q : A → Type 0) (xs : List A) → ((x : A) → P x → Q x) → All P xs → All Q xs
All-map P Q [] f h = tt
All-map P Q (x ∷ xs) f h = (f x h.0, All-map P Q xs f h.1)

pub not_skipped : (status : StepStatus) → status ≡ present → is_skipped status ≡ true → ⊥
not_skipped status here h = cc (ap is_skipped here, h)

-- The files of an input of a sound step.
files_distinct :
    (input_id : String) (step : StepState) → IsSound step → DistinctPaths (files_of input_id step)
files_distinct input_id step h = elim (Option-cases (get input_id step.attachments)) [
  | inl missing ↦ rw (missing, files_of) tt
  | inr (files, found) ↦
      rw (found, files_of)
        (AllEntries-get _ input_id files step.attachments h.attachments found).distinct
]

files_safe :
    (input_id : String) (step : StepState) → IsSound step → All IsSafeFile (files_of input_id step)
files_safe input_id step h = elim (Option-cases (get input_id step.attachments)) [
  | inl missing ↦ rw (missing, files_of) tt
  | inr (files, found) ↦
      rw (found, files_of)
        (AllEntries-get _ input_id files step.attachments h.attachments found).safe
]

files_input :
    (input_id : String) (step : StepState) (i : ℕ) (p : RecordedAttachment → Bool)
    → IsSound step
    → position p (files_of input_id step) ≡ some i
    → IsAttachmentInput step.content input_id
files_input input_id step i p h at = elim (Option-cases (get input_id step.attachments)) [
  | inl missing ↦ cc (rw (missing, files_of) at at)
  | inr (files, found) ↦
      (AllEntries-get _ input_id files step.attachments h.attachments found).takes_files
]

with_files-IsSound :
    (input_id : String) (files : List RecordedAttachment) (step : StepState)
    → step.status ≡ present
    → DistinctPaths files
    → All IsSafeFile files
    → IsAttachmentInput step.content input_id
    → IsSound step
    → IsSound (with_files input_id files step)
with_files-IsSound input_id [] step here distinct safe input h = record {
  attachments = AllEntries-remove _ input_id step.attachments h.attachments;
  inputs = h.inputs;
  skipped_empty = λ sk. absurd (not_skipped step.status here sk);
}
with_files-IsSound input_id (f ∷ fs) step here distinct safe input h = record {
  attachments =
      AllEntries-insert _ input_id (f ∷ fs) step.attachments h.attachments
        (record { nonempty = refl; distinct = distinct; safe = safe; takes_files = input });
  inputs = h.inputs;
  skipped_empty = λ sk. absurd (not_skipped step.status here sk);
}

-- The invariants speak of the content through its input definitions only.
same_definitions :
    (step : StepState) (content : List ExecutionStepContent)
    → step.status ≡ present
    → ((input_id : String)
        → input_definition content input_id ≡ input_definition step.content input_id)
    → IsSound step
    → IsSound (record step { content = content })
same_definitions step content here same h = record {
  attachments =
      All-map _ _ step.attachments
        (λ e x. record {
          nonempty = x.nonempty;
          distinct = x.distinct;
          safe = x.safe;
          takes_files = let (d, found, kind) = x.takes_files in (d, same e.0 ∙ found, kind);
        })
        h.attachments;
  inputs =
      All-map _ _ step.inputs
        (λ e x. let (d, found, kind, label) = x in (d, same e.0 ∙ found, kind, label)) h.inputs;
  skipped_empty = λ sk. absurd (not_skipped step.status here sk);
}

pub StepMove-IsSound :
    {step step' : StepState}
    → StepMove step step'
    → step.status ≡ present
    → IsSound step
    → IsSound step'
unfolding has_captured_data
StepMove-IsSound {step} (StepMove.skips at reason clean) here h = record {
  attachments = h.attachments;
  inputs = h.inputs;
  skipped_empty = λ _. clean;
}
StepMove-IsSound {step} (StepMove.toggles at id checked content e) here h =
    same_definitions step content here
      (λ k. input_definition-toggle_content id checked at step.content content k e) h
StepMove-IsSound {step} (StepMove.records input_id input scalar free no_files) here h = record {
  attachments = h.attachments;
  inputs = AllEntries-insert _ input_id input step.inputs h.inputs scalar;
  skipped_empty = λ sk. absurd (not_skipped step.status here sk);
}
StepMove-IsSound {step} (StepMove.clears input_id input found) here h = record {
  attachments = h.attachments;
  inputs = AllEntries-remove _ input_id step.inputs h.inputs;
  skipped_empty = λ sk. absurd (not_skipped step.status here sk);
}
StepMove-IsSound {step} (StepMove.attaches at input_id rs some_rs takes free distinct safe) here h =
    with_files-IsSound input_id _ step here distinct
      (All-append IsSafeFile (files_of input_id step) (recorded at rs) (files_safe input_id step h)
        safe)
      takes h
StepMove-IsSound {step} (StepMove.detaches input_id path i at) here h =
    with_files-IsSound input_id _ step here
      (DistinctPaths-erase_idx (files_of input_id step) i (files_distinct input_id step h))
      (All-erase_idx IsSafeFile (files_of input_id step) i (files_safe input_id step h))
      (files_input input_id step i _ h at) h
StepMove-IsSound {step} (StepMove.detaches_all input_id some_files) here h = record {
  attachments = AllEntries-remove _ input_id step.attachments h.attachments;
  inputs = h.inputs;
  skipped_empty = λ sk. absurd (not_skipped step.status here sk);
}
