-- ===== src/Execution/Transition/AttachmentOutcomes.antt =====
-- crates/procnote-core/src/execution/engine.rs: the arms for attachments, against `Transition`.
use procnote.Prelude.{
  String, false, ◌≡◌, refl, inl, inr, List, [], ◌∷◌, ok, Bool-cases, Result-cases, All, codes,
}
use procnote.Event.{Timestamp, AttachmentRecord}
use procnote.Execution.State.{ExecutionState, from_record_at}
use procnote.Execution.Attachments.{
  is_bad_path, validate_attachment_path, validate_attachment_paths,
}
use procnote.Execution.AttachmentEvents.{
  apply_attachment_added, apply_attachments_added, apply_attachment_file_removed,
  apply_attachments_cleared,
}
use procnote.Execution.Sound.{IsSoundState, IsSafeFile}
use procnote.Execution.Relation.{recorded}
use procnote.Execution.Transition.StepMoves.{
  remove_attachment_file_from_step-Moves, clear_attachments_from_step-Moves,
}
use procnote.Execution.Transition.AttachMoves.{add_attachments_to_step-Moves}
use procnote.Execution.Transition.{Outcome}
use procnote.Execution.Transition.Guarded.{
  Leaves, require_active_rule, lift_rule, on_present_step-Outcome,
}

pub valid_path_safe :
    (path : String) (done : Unit {0})
    → validate_attachment_path path ≡ ok done
    → is_bad_path (codes path) ≡ false
unfolding validate_attachment_path
valid_path_safe path done h = elim (Bool-cases (is_bad_path (codes path))) [
  | inl bad ↦ cc (rw bad at h)
  | inr good ↦ good
]

valid_paths_safe :
    (at : Timestamp) (rs : List AttachmentRecord) (done : Unit {0})
    → validate_attachment_paths rs ≡ ok done
    → All IsSafeFile (recorded at rs)
unfolding validate_attachment_paths from_record_at
valid_paths_safe at [] done h = tt
valid_paths_safe at (r ∷ rs) done h = elim (Result-cases (validate_attachment_path r.path)) [
  | inl (e, bad) ↦ cc (rw (bad, validate_attachment_paths) at h)
  | inr (d, good) ↦ (
    valid_path_safe r.path d good,
    valid_paths_safe at rs done (rw (good, validate_attachment_paths) at h),
  )
]

pub apply_attachment_added-Outcome :
    (at : Timestamp) (step_id input_id : String) (a : AttachmentRecord) (s : ExecutionState)
    → IsSoundState s
    → Leaves (Outcome s) (apply_attachment_added at step_id input_id a) s
unfolding apply_attachment_added from_record_at
apply_attachment_added-Outcome at step_id input_id a s h =
    require_active_rule (Outcome s) _ s (λ e. refl)
      λ run.
        lift_rule (Outcome s) (validate_attachment_path a.path) _ s (λ e. refl)
          λ d good.
            on_present_step-Outcome step_id _ s
              (add_attachments_to_step-Moves at input_id (a ∷ [])
                (valid_path_safe a.path d good, tt))
              h run

pub apply_attachments_added-Outcome :
    (at : Timestamp) (step_id input_id : String) (rs : List AttachmentRecord) (s : ExecutionState)
    → IsSoundState s
    → Leaves (Outcome s) (apply_attachments_added at step_id input_id rs) s
unfolding apply_attachments_added
apply_attachments_added-Outcome at step_id input_id rs s h =
    require_active_rule (Outcome s) _ s (λ e. refl)
      λ run.
        lift_rule (Outcome s) (validate_attachment_paths rs) _ s (λ e. refl)
          λ d good.
            on_present_step-Outcome step_id _ s
              (add_attachments_to_step-Moves at input_id rs (valid_paths_safe at rs d good)) h run

pub apply_attachment_file_removed-Outcome :
    (step_id input_id path : String) (s : ExecutionState)
    → IsSoundState s
    → Leaves (Outcome s) (apply_attachment_file_removed step_id input_id path) s
unfolding apply_attachment_file_removed
apply_attachment_file_removed-Outcome step_id input_id path s h =
    require_active_rule (Outcome s) _ s (λ e. refl)
      λ run.
        lift_rule (Outcome s) (validate_attachment_path path) _ s (λ e. refl)
          λ d good.
            on_present_step-Outcome step_id _ s
              (remove_attachment_file_from_step-Moves input_id path) h run

pub apply_attachments_cleared-Outcome :
    (step_id input_id : String) (s : ExecutionState)
    → IsSoundState s
    → Leaves (Outcome s) (apply_attachments_cleared step_id input_id) s
unfolding apply_attachments_cleared
apply_attachments_cleared-Outcome step_id input_id s h =
    require_active_rule (Outcome s) _ s (λ e. refl)
      (on_present_step-Outcome step_id _ s (clear_attachments_from_step-Moves input_id) h)
