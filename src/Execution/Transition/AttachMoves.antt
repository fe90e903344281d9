-- ===== src/Execution/Transition/AttachMoves.antt =====
-- crates/procnote-core/src/execution/engine.rs: lemmas on adding files to a step.
use procnote.Prelude.{
  String, ◌≡◌, refl, sym, ap, subst, ◌∙◌, inl, inr, none, List, [], ◌∷◌, ◌++◌, ok, All, get, insert,
  AllEntries-get, insert_twice, insert-get_self, Option-cases, Result-cases,
}
use procnote.Event.{Timestamp, AttachmentRecord}
use procnote.Execution.State.{RecordedAttachment, StepState}
use procnote.Execution.Steps.{require_attachment_input}
use procnote.Execution.Attachments.{
  add_attachments_to_step, duplicate_attachment_path, stored_duplicate,
}
use procnote.Execution.Sound.{IsSound, IsSafeFile, DistinctPaths, IsAttachmentInput}
use procnote.Execution.Relation.{StepMove, files_of, with_files, recorded}
use procnote.Execution.Sound.Paths.{DistinctPaths-add, stored_duplicate-nil}
use procnote.Execution.Transition.StepMoves.{
  StepOutcome, Moves, require_attachment_input_cases, files_of-get,
}

append_ne_nil :
    (at : Timestamp) (files : List RecordedAttachment) (a : AttachmentRecord)
    (rest : List AttachmentRecord) (input_id : String) (step : StepState)
    → with_files input_id (files ++ recorded at (a ∷ rest)) step ≡ record step {
      attachments = insert input_id (files ++ recorded at (a ∷ rest)) step.attachments;
    }
append_ne_nil at [] a rest input_id step = refl
append_ne_nil at (f ∷ fs) a rest input_id step = refl

-- The batch passes all checks.
attaches_get :
    (at : Timestamp) (input_id : String) (a : AttachmentRecord) (rest : List AttachmentRecord)
    (step : StepState) (files : List RecordedAttachment)
    → files_of input_id step ≡ files
    → DistinctPaths files
    → All IsSafeFile (recorded at (a ∷ rest))
    → IsAttachmentInput step.content input_id
    → get input_id step.inputs ≡ none
    → duplicate_attachment_path (a ∷ rest) ≡ none
    → stored_duplicate files (a ∷ rest) ≡ none
    → StepMove step (record step {
      attachments =
          insert input_id
            (files ++ recorded at (a ∷ rest))
            (insert input_id files step.attachments);
    })
attaches_get at input_id a rest step files e distinct safe takes free new fresh =
    subst (StepMove step) written (
      subst (λ fs. StepMove step (with_files input_id (fs ++ recorded at (a ∷ rest)) step)) e
        (StepMove.attaches at input_id (a ∷ rest) (λ n. cc) takes free
          (subst (λ fs. DistinctPaths (fs ++ recorded at (a ∷ rest))) (sym e)
            (DistinctPaths-add at files (a ∷ rest) distinct new fresh))
          safe))
  where
    written : with_files input_id (files ++ recorded at (a ∷ rest)) step ≡ record step {
      attachments =
          insert input_id
            (files ++ recorded at (a ∷ rest))
            (insert input_id files step.attachments);
    }
    written =
        append_ne_nil at files a rest input_id step
        ∙ ap (λ m. record step { attachments = m })
            (sym (insert_twice input_id files _ step.attachments))

-- The last check, against the files that the input has.
stored_check :
    (at : Timestamp) (input_id : String) (a : AttachmentRecord) (rest : List AttachmentRecord)
    (step : StepState)
    → IsSound step
    → All IsSafeFile (recorded at (a ∷ rest))
    → require_attachment_input step input_id ≡ ok tt
    → get input_id step.inputs ≡ none
    → duplicate_attachment_path (a ∷ rest) ≡ none
    → StepOutcome step
        (add_attachments_to_step input_id (a ∷ rest) at step).0
        (add_attachments_to_step input_id (a ∷ rest) at step).1
unfolding add_attachments_to_step
stored_check at input_id a rest step h safe takes free new =
    elim (Option-cases (get input_id step.attachments)) [
      | inl missing ↦
          rw (takes, free, new, missing, stored_duplicate-nil (a ∷ rest))
            (attaches_get at input_id a rest step [] (rw (missing, files_of)) tt safe input free new
              (stored_duplicate-nil (a ∷ rest)))
      | inr (files, found) ↦ elim (Option-cases (stored_duplicate files (a ∷ rest))) [
        | inl fresh ↦
            rw (takes, free, new, found, fresh)
              (attaches_get at input_id a rest step files (files_of-get input_id step files found)
                (AllEntries-get _ input_id files step.attachments h.attachments found).distinct safe
                input free new fresh)
        | inr (r, clash) ↦
            rw (takes, free, new, found, clash)
              (ap (λ m. record step { attachments = m }) (insert-get_self input_id files _ found))
      ]
    ]
  where
    input : IsAttachmentInput step.content input_id
    input = require_attachment_input_cases step input_id tt takes

pub add_attachments_to_step-Moves :
    (at : Timestamp) (input_id : String) (attachments : List AttachmentRecord)
    → All IsSafeFile (recorded at attachments)
    → Moves (add_attachments_to_step input_id attachments at)
unfolding add_attachments_to_step
add_attachments_to_step-Moves at input_id [] safe step h = refl
add_attachments_to_step-Moves at input_id (a ∷ rest) safe step h =
    elim (Result-cases (require_attachment_input step input_id)) [
      | inl (e, wrong) ↦ rw wrong refl
      | inr (tt, takes) ↦ elim (Option-cases (get input_id step.inputs)) [
        | inr (v, there) ↦ rw (takes, there) refl
        | inl free ↦ elim (Option-cases (duplicate_attachment_path (a ∷ rest))) [
          | inr (path, twice) ↦ rw (takes, free, twice) refl
          | inl new ↦ stored_check at input_id a rest step h safe takes free new
        ]
      ]
    ]
