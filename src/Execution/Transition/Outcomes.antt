-- ===== src/Execution/Transition/Outcomes.antt =====
-- crates/procnote-core/src/execution/engine.rs: the arms for the life of the execution, the steps and
-- the notes, against `Transition`.
use procnote.Prelude.{
  String, Bool, true, false, ◌≡◌, refl, ap, inl, inr, Option, none, some, List, ok, get, is_some,
  contains_key, Option-cases, ok_or, insert-get_self,
}
use procnote.Template.{StepContent}
use procnote.Event.{Timestamp, ExecutionId, CompletionStatus}
use procnote.Execution.State.{
  ExecutionError, ExecutionStatus, pending, active, finished, StepStatus, present, skipped,
  StepState, ExecutionState,
}
use procnote.Execution.Guards.{require_finished, finished_result}
use procnote.Execution.Lifecycle.{
  apply_started, apply_finished, apply_reopened, apply_renamed, start_result,
}
use procnote.Execution.StepEvents.{
  apply_step_added, apply_step_skipped, apply_step_unskipped, apply_checkbox_toggled,
  apply_input_recorded, apply_input_cleared, insert_position, unskipped,
}
use procnote.Execution.NoteEvents.{
  apply_note_added, apply_note_removed, note_exists, without_note, without_step_note, remove_note,
}
use procnote.Execution.Sound.{IsSoundState, is_skipped}
use procnote.Execution.Transition.StepMoves.{
  skip-Moves, toggle-Moves, record_input_value-Moves, clear_input_value-Moves,
}
use procnote.Execution.Transition.{Transition, Outcome, write_step}
use procnote.Execution.Transition.Guarded.{
  Leaves, require_active_rule, on_present_step_rule, lift_rule, if_rule, on_present_step-Outcome,
  ok_or_cases,
}

start_result_ok : (status : ExecutionStatus) → start_result status ≡ ok tt → status ≡ pending
unfolding start_result
start_result_ok pending h = refl
start_result_ok active h = cc
start_result_ok (finished c) h = cc

finished_result_ok :
    (status : ExecutionStatus)
    → finished_result status ≡ ok tt
    → (c : CompletionStatus) × (status ≡ finished c)
unfolding finished_result
finished_result_ok pending h = cc
finished_result_ok active h = cc
finished_result_ok (finished c) h = (c, refl)

is_some_cases : {A : Type 0} (o : Option A) → is_some o ≡ true → (a : A) × (o ≡ some a)
is_some_cases none h = cc
is_some_cases (some a) h = (a, refl)

is_some_none : {A : Type 0} (o : Option A) → is_some o ≡ false → o ≡ none
is_some_none none h = refl
is_some_none (some a) h = cc

pub apply_started-Outcome :
    (at : Timestamp) (execution_id : ExecutionId) (procedure_id title version : String)
    (s : ExecutionState)
    → Leaves (Outcome s) (apply_started at execution_id procedure_id title version) s
unfolding apply_started
apply_started-Outcome at execution_id procedure_id title version s =
    lift_rule (Outcome s) (start_result s.status) _ s (λ e. refl)
      λ _ e.
        Transition.starts at execution_id procedure_id title version (start_result_ok s.status e)

pub apply_finished-Outcome :
    (at : Timestamp) (status : CompletionStatus) (s : ExecutionState)
    → Leaves (Outcome s) (apply_finished at status) s
unfolding apply_finished
apply_finished-Outcome at status s =
    require_active_rule (Outcome s) _ s (λ e. refl) (Transition.finishes at status)

pub apply_reopened-Outcome : (s : ExecutionState) → Leaves (Outcome s) apply_reopened s
unfolding apply_reopened require_finished
apply_reopened-Outcome s =
    lift_rule (Outcome s) (finished_result s.status) _ s (λ e. refl)
      λ _ e. let (c, was) = finished_result_ok s.status e in Transition.reopens c was

pub apply_renamed-Outcome :
    (name : String) (s : ExecutionState) → Leaves (Outcome s) (apply_renamed name) s
unfolding apply_renamed
apply_renamed-Outcome name s =
    if_rule (Outcome s) (is_some s.execution_id) _ _ s
      (λ e. let (id, known) = is_some_cases s.execution_id e in Transition.renames name id known)
      (λ _. refl)

pub apply_step_added-Outcome :
    (step_id heading : String) (content : List StepContent) (after : Option String)
    (s : ExecutionState)
    → Leaves (Outcome s) (apply_step_added step_id heading content after) s
unfolding apply_step_added
apply_step_added-Outcome step_id heading content after s =
    require_active_rule (Outcome s) _ s (λ e. refl)
      λ run.
        if_rule (Outcome s) (contains_key step_id s.steps) _ _ s (λ _. refl)
          λ fresh.
            lift_rule (Outcome s) (insert_position after s.step_order) _ s (λ e. refl)
              λ place at.
                Transition.adds_step step_id heading content after place run
                  (is_some_none (get step_id s.steps) fresh) at

pub apply_step_skipped-Outcome :
    (at : Timestamp) (step_id reason : String) (s : ExecutionState)
    → IsSoundState s
    → Leaves (Outcome s) (apply_step_skipped at step_id reason) s
unfolding apply_step_skipped
apply_step_skipped-Outcome at step_id reason s h =
    require_active_rule (Outcome s) _ s (λ e. refl)
      (on_present_step-Outcome step_id _ s (skip-Moves at step_id reason) h)

unskip-Outcome :
    (step_id : String) (step : StepState) (s : ExecutionState)
    → s.status ≡ active
    → get step_id s.steps ≡ some step
    → (status : StepStatus) → step.status ≡ status
    → Outcome s
        (unskipped step_id step status).0
        (write_step step_id (unskipped step_id step status).1 s)
unfolding unskipped
unskip-Outcome step_id step s run found present e =
    ap (λ x. record s { steps = x }) (insert-get_self step_id step s.steps found)
unskip-Outcome step_id step s run found (skipped _ _) e =
    Transition.unskips step_id step run found (rw (e, is_skipped))

pub apply_step_unskipped-Outcome :
    (step_id : String) (s : ExecutionState) → Leaves (Outcome s) (apply_step_unskipped step_id) s
unfolding apply_step_unskipped
apply_step_unskipped-Outcome step_id s =
    require_active_rule (Outcome s) _ s (λ e. refl)
      λ run.
        lift_rule (Outcome s) (ok_or (get step_id s.steps) (ExecutionError.step_not_found step_id))
          _ s (λ e. refl)
          λ step found. unskip-Outcome step_id step s run (ok_or_cases _ _ found) step.status refl

pub apply_checkbox_toggled-Outcome :
    (at : Timestamp) (step_id checkbox_id : String) (checked : Bool) (s : ExecutionState)
    → IsSoundState s
    → Leaves (Outcome s) (apply_checkbox_toggled at step_id checkbox_id checked) s
unfolding apply_checkbox_toggled
apply_checkbox_toggled-Outcome at step_id checkbox_id checked s h =
    require_active_rule (Outcome s) _ s (λ e. refl)
      (on_present_step-Outcome step_id _ s (toggle-Moves at checkbox_id checked) h)

pub apply_input_recorded-Outcome :
    (at : Timestamp) (step_id input_id value : String) (unit : Option String) (s : ExecutionState)
    → IsSoundState s
    → Leaves (Outcome s) (apply_input_recorded at step_id input_id value unit) s
unfolding apply_input_recorded
apply_input_recorded-Outcome at step_id input_id value unit s h =
    require_active_rule (Outcome s) _ s (λ e. refl)
      (on_present_step-Outcome step_id _ s (record_input_value-Moves at input_id value unit) h)

pub apply_input_cleared-Outcome :
    (step_id input_id : String) (s : ExecutionState)
    → IsSoundState s
    → Leaves (Outcome s) (apply_input_cleared step_id input_id) s
unfolding apply_input_cleared
apply_input_cleared-Outcome step_id input_id s h =
    require_active_rule (Outcome s) _ s (λ e. refl)
      (on_present_step-Outcome step_id _ s (clear_input_value-Moves input_id) h)

pub apply_note_added-Outcome :
    (at : Timestamp) (note_id text : String) (step_id : Option String) (s : ExecutionState)
    → Leaves (Outcome s) (apply_note_added at note_id text step_id) s
unfolding apply_note_added
apply_note_added-Outcome at note_id text none s =
    require_active_rule (Outcome s) _ s (λ e. refl)
      λ run.
        if_rule (Outcome s) (note_exists note_id s) _ _ s (λ _. refl)
          (Transition.adds_note (record { id = note_id; text = text; at = at }) run)
apply_note_added-Outcome at note_id text (some step_id) s =
    require_active_rule (Outcome s) _ s (λ e. refl)
      λ run.
        if_rule (Outcome s) (note_exists note_id s) _ _ s (λ _. refl)
          λ fresh.
            on_present_step_rule (Outcome s) step_id _ s (λ e. refl)
              λ step found here.
                Transition.adds_step_note step_id step
                  (record { id = note_id; text = text; at = at }) run found here fresh

remove_note-Outcome :
    (note_id : String) (s : ExecutionState)
    → s.status ≡ active
    → Outcome s (remove_note note_id s).0 (remove_note note_id s).1
unfolding remove_note
remove_note-Outcome note_id s run = elim (Option-cases (without_note note_id s.global_notes)) [
  | inr (notes, left) ↦ rw (left, remove_note) (Transition.removes_note note_id notes run left)
  | inl absent ↦ elim (Option-cases (without_step_note note_id s.steps)) [
    | inr (steps, left) ↦
        rw (absent, left, remove_note) (Transition.removes_step_note note_id steps run left)
    | inl missing ↦ rw (absent, missing, remove_note) refl
  ]
]

pub apply_note_removed-Outcome :
    (note_id : String) (s : ExecutionState) → Leaves (Outcome s) (apply_note_removed note_id) s
unfolding apply_note_removed
apply_note_removed-Outcome note_id s =
    require_active_rule (Outcome s) _ s (λ e. refl) (remove_note-Outcome note_id s)
