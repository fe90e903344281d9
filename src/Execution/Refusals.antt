-- ===== src/Execution/Refusals.antt =====
-- crates/procnote-core/src/execution/engine.rs: the events that a status does not admit.
use procnote.Prelude.{
  String, Bool, true, false, ◌≡◌, refl, ap, ◌∙◌, Option, none, some, Result, err, ◌>>◌, continue,
  arith, is_some,
}
use procnote.Event.{
  Event, execution_started, execution_reopened, note_added, execution_renamed, log_meta,
  CompletionStatus, Timestamp, ExecutionId,
}
use procnote.Execution.State.{
  ExecutionState, ExecutionStatus, pending, active, finished, ExecutionError, not_started,
  already_started, already_finished, not_finished, replay_metadata_event, new, Action,
}
use procnote.Execution.Guards.{require_active, require_finished, active_result, finished_result}
use procnote.Execution.Lifecycle.{
  apply_started, apply_finished, apply_reopened, apply_renamed, start_result,
}
use procnote.Execution.StepEvents.{
  apply_step_added, apply_step_skipped, apply_step_unskipped, apply_checkbox_toggled,
  apply_input_recorded, apply_input_cleared,
}
use procnote.Execution.NoteEvents.{apply_note_added, apply_note_removed}
use procnote.Execution.AttachmentEvents.{
  apply_attachment_added, apply_attachments_added, apply_attachment_file_removed,
  apply_attachments_cleared, apply_attachment_received, apply_attachment_assigned,
  apply_attachment_unassigned,
}
use procnote.Execution.Apply.{apply_event, count_event, apply}
use procnote.Execution.Invariants.Lifecycle.{FitsStatus}

-- The answer of a status to an event that it does not admit.
abbrev pub refusal : ExecutionStatus → Event → Option ExecutionError
refusal _ (log_meta _ _ _) = some replay_metadata_event
refusal pending (execution_started _ _ _ _ _) = none
refusal active (execution_started _ _ _ _ _) = some already_started
refusal active (execution_reopened _ _ _) = some not_finished
refusal (finished _) (execution_reopened _ _ _) = none
refusal (finished _) (execution_renamed _ _ _) = none
refusal pending _ = some not_started
refusal active _ = none
refusal (finished _) _ = some already_finished

-- The events whose arm begins with `require_active`.
abbrev pub needs_active : Event → Bool
needs_active (execution_started _ _ _ _ _) = false
needs_active (execution_reopened _ _ _) = false
needs_active (execution_renamed _ _ _) = false
needs_active (log_meta _ _ _) = false
needs_active _ = true

inactive :
    {A : Type 0} (k : Action A) (s : ExecutionState) (e : ExecutionError)
    → active_result s.status ≡ err e
    → ((require_active >> k) s).0 ≡ err e
unfolding require_active
inactive {A} k s e h = ap (λ r. (continue r (λ _. k) s).0) h

needs_active-refused :
    (event : Event) (s : ExecutionState) (e : ExecutionError)
    → needs_active event ≡ true
    → active_result s.status ≡ err e
    → (apply_event event s).0 ≡ err e
unfolding apply_event apply_finished apply_step_added apply_step_skipped apply_step_unskipped
    apply_checkbox_toggled apply_input_recorded apply_input_cleared apply_note_added
    apply_note_removed apply_attachment_added apply_attachments_added apply_attachment_file_removed
    apply_attachments_cleared apply_attachment_received apply_attachment_assigned
    apply_attachment_unassigned
needs_active-refused (execution_started _ _ _ _ _) s e n h = cc
needs_active-refused (execution_reopened _ _ _) s e n h = cc
needs_active-refused (execution_renamed _ _ _) s e n h = cc
needs_active-refused (log_meta _ _ _) s e n h = cc
needs_active-refused (note_added _ _ _ _ none) s e n h = inactive _ s e h
needs_active-refused (note_added _ _ _ _ (some _)) s e n h = inactive _ s e h
needs_active-refused _ s e n h = inactive _ s e h

error_of :
    {a e : ExecutionError}
    → ◌≡◌ {A = Option ExecutionError} (some a) (some e)
    → ◌≡◌ {A = Result ExecutionError (Unit {0})} (err a) (err e)
error_of h = ground arith

reopened-refused :
    (s : ExecutionState) (e : ExecutionError)
    → finished_result s.status ≡ err e
    → (apply_reopened s).0 ≡ err e
unfolding apply_reopened require_finished
reopened-refused s e h = ground arith

started-refused :
    (at : Timestamp) (id : ExecutionId) (procedure_id title version : String) (s : ExecutionState)
    (e : ExecutionError)
    → start_result s.status ≡ err e
    → (apply_started at id procedure_id title version s).0 ≡ err e
unfolding apply_started
started-refused at id procedure_id title version s e h = ground arith

renamed_new :
    (s : ExecutionState) (name : String) → s ≡ new → (apply_renamed name s).0 ≡ err not_started
unfolding apply_renamed new
renamed_new s name h =
    let q : is_some s.execution_id ≡ false =
      ap (λ (x : ExecutionState). is_some x.execution_id) h in
    ground (arith, q)

refused_pending :
    (event : Event) (s : ExecutionState) (e : ExecutionError)
    → s.status ≡ pending
    → s ≡ new
    → refusal pending event ≡ some e
    → (apply_event event s).0 ≡ err e
unfolding apply_event active_result finished_result
refused_pending (execution_started _ _ _ _ _) s e st fits h = cc
refused_pending (execution_reopened _ _ _) s e st fits h =
    reopened-refused s e (ap finished_result st ∙ error_of h)
refused_pending (execution_renamed _ _ name) s e st fits h = renamed_new s name fits ∙ error_of h
refused_pending (log_meta _ _ _) s e st fits h = error_of h
refused_pending event s e st fits h =
    needs_active-refused event s e refl (ap active_result st ∙ error_of h)

refused_active :
    (event : Event) (s : ExecutionState) (e : ExecutionError)
    → s.status ≡ active
    → refusal active event ≡ some e
    → (apply_event event s).0 ≡ err e
unfolding apply_event start_result finished_result
refused_active (execution_started at id p t v) s e st h =
    started-refused at id p t v s e (ap start_result st ∙ error_of h)
refused_active (execution_reopened _ _ _) s e st h =
    reopened-refused s e (ap finished_result st ∙ error_of h)
refused_active (log_meta _ _ _) s e st h = error_of h
refused_active event s e st h = cc

refused_finished :
    (event : Event) (s : ExecutionState) (e : ExecutionError) (c : CompletionStatus)
    → s.status ≡ finished c
    → refusal (finished c) event ≡ some e
    → (apply_event event s).0 ≡ err e
unfolding apply_event start_result active_result
refused_finished (execution_started at id p t v) s e c st h =
    started-refused at id p t v s e (ap start_result st ∙ error_of h)
refused_finished (execution_reopened _ _ _) s e c st h = cc
refused_finished (execution_renamed _ _ _) s e c st h = cc
refused_finished (log_meta _ _ _) s e c st h = error_of h
refused_finished event s e c st h =
    needs_active-refused event s e refl (ap active_result st ∙ error_of h)

refused :
    (event : Event) (s : ExecutionState) (e : ExecutionError) (status : ExecutionStatus)
    → s.status ≡ status
    → FitsStatus status s
    → refusal status event ≡ some e
    → (apply_event event s).0 ≡ err e
refused event s e pending st fits h = refused_pending event s e st fits h
refused event s e active st fits h = refused_active event s e st h
refused event s e (finished c) st fits h = refused_finished event s e c st h

apply-refused :
    (event : Event) (s : ExecutionState) (e : ExecutionError)
    → (apply_event event s).0 ≡ err e
    → (apply event s).0 ≡ err e
unfolding apply
apply-refused event s e h =
    ap (λ r. (continue r (λ _. count_event event) (apply_event event s).1).0) h

pub apply-inactive :
    (event : Event) (s : ExecutionState) (e : ExecutionError)
    → needs_active event ≡ true
    → active_result s.status ≡ err e
    → (apply event s).0 ≡ err e
apply-inactive event s e n h = apply-refused event s e (needs_active-refused event s e n h)

pub apply-unfinished :
    (at : Timestamp) (id : ExecutionId) (reason : String) (s : ExecutionState) (e : ExecutionError)
    → finished_result s.status ≡ err e
    → (apply (execution_reopened at id reason) s).0 ≡ err e
unfolding apply_event
apply-unfinished at id reason s e h =
    apply-refused (execution_reopened at id reason) s e (reopened-refused s e h)

-- An event that the status does not admit is refused with the error for that status: before the
-- start everything but the start is `NotStarted`; a running execution is not started again
-- (`AlreadyStarted`) nor reopened (`NotFinished`); a finished one takes a reopening and a new name
-- and answers `AlreadyFinished` to all else; and `LogMeta` is never a transition. The state is one
-- whose fields fit its status, as every replayed state is.
pub apply-refusal :
    (event : Event) (s : ExecutionState) (e : ExecutionError)
    → FitsStatus s.status s
    → refusal s.status event ≡ some e
    → (apply event s).0 ≡ err e
apply-refusal event s e fits h = apply-refused event s e (refused event s e s.status refl fits h)
