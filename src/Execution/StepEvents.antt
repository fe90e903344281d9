-- ===== src/Execution/StepEvents.antt =====
-- crates/procnote-core/src/execution/engine.rs: the arms of `apply` for steps, checkboxes and inputs.
use procnote.Prelude.{
  ℕ, ◌+◌, String, ◌==◌, Bool, true, false, ◌||◌, Option, none, some, List, [], ◌∷◌, ◌++◌, Result,
  ok, err, ok_or, raise, lift, gets, put, ◌>>=◌, ◌>>◌, get, insert, remove, contains_key, position,
  insert_idx, if◌then◌else◌,
}
use procnote.Template.{StepContent}
use procnote.Event.{Timestamp}
use procnote.Execution.State.{
  ExecutionError, StepStatus, present, skipped, RecordedInput, RecordedAttachment, StepState,
  Action, StepAction,
}
use procnote.Execution.Guards.{require_active, get_step_mut, on_step, on_present_step}
use procnote.Execution.Steps.{scalar_input_label, toggle_content, has_captured_data}
use procnote.Execution.Checkboxes.{execution_content_with_checkbox_ids}

-- The place in `step_order` after the step `after`; `none`: at the end.
unfoldable pub insert_position : Option String → List String → Result ExecutionError (Option ℕ)
insert_position none order = ok none
insert_position (some after) order = elim (position (λ id. id == after) order) [
  | none ↦ err (ExecutionError.after_step_not_found after)
  | some i ↦ ok (some (i + 1))
]

unfoldable pub insert_or_push : Option ℕ → String → List String → List String
insert_or_push none id order = order ++ id ∷ []
insert_or_push (some i) id order = insert_idx order i id

unfoldable pub apply_step_added :
    String → String → List StepContent → Option String → Action (Unit {0})
unfolding require_active insert_position insert_or_push execution_content_with_checkbox_ids
apply_step_added step_id heading content after_step_id = do
  require_active
  s ← gets (λ s. s)
  if contains_key step_id s.steps then raise (ExecutionError.duplicate_step_id step_id) else do
    let content' = execution_content_with_checkbox_ids step_id content
    place ← lift (insert_position after_step_id s.step_order)
    let step : StepState = record {
      id = step_id;
      heading = heading;
      status = present;
      content = content';
      inputs = [];
      attachments = [];
      notes = [];
    }
    put (record s {
      steps = insert step_id step s.steps;
      step_order = insert_or_push place step_id s.step_order;
    })

unfoldable pub skip : Timestamp → String → String → StepAction (Unit {0})
unfolding has_captured_data
skip at step_id reason = do
  step ← gets (λ s. s)
  if has_captured_data step
      then raise (ExecutionError.step_has_captured_data step_id)
      else put (record step { status = skipped at reason })

unfoldable pub apply_step_skipped : Timestamp → String → String → Action (Unit {0})
unfolding require_active on_present_step skip
apply_step_skipped at step_id reason = do
  require_active
  on_present_step step_id (skip at step_id reason)

unfoldable pub unskipped :
    String → StepState → StepStatus → Result ExecutionError (Unit {0}) × StepState
unskipped step_id step present = (err (ExecutionError.step_not_skipped step_id), step)
unskipped step_id step (skipped _ _) = (ok tt, record step { status = present })

unfoldable pub unskip : String → StepAction (Unit {0})
unfolding unskipped
unskip step_id step = unskipped step_id step step.status

unfoldable pub apply_step_unskipped : String → Action (Unit {0})
unfolding require_active get_step_mut on_step unskip
apply_step_unskipped step_id = do
  require_active
  step ← get_step_mut step_id
  on_step step_id step (unskip step_id)

unfoldable pub toggle : Timestamp → String → Bool → StepAction (Unit {0})
unfolding toggle_content
toggle at checkbox_id checked = do
  step ← gets (λ s. s)
  content ← lift (
      ok_or (toggle_content checkbox_id checked at step.content)
        (ExecutionError.checkbox_not_found checkbox_id))
  put (record step { content = content })

unfoldable pub apply_checkbox_toggled : Timestamp → String → String → Bool → Action (Unit {0})
unfolding require_active on_present_step toggle
apply_checkbox_toggled at step_id checkbox_id checked = do
  require_active
  on_present_step step_id (toggle at checkbox_id checked)

-- `attachments.get(input_id).is_some_and(|files| !files.is_empty())`
unfoldable pub has_files : Option (List RecordedAttachment) → Bool
has_files (some (_ ∷ _)) = true
has_files _ = false

unfoldable pub record_input_value :
    Timestamp → String → String → Option String → StepAction (Unit {0})
unfolding scalar_input_label has_files
record_input_value at input_id value unit = do
  step ← gets (λ s. s)
  label ← lift (scalar_input_label step input_id)
  if contains_key input_id step.inputs || has_files (get input_id step.attachments)
      then raise (ExecutionError.input_already_recorded input_id)
      else do
        let recorded : RecordedInput = record { label = label; value = value; unit = unit; at = at }
        put (record step { inputs = insert input_id recorded step.inputs })

unfoldable pub apply_input_recorded :
    Timestamp → String → String → String → Option String → Action (Unit {0})
unfolding require_active on_present_step record_input_value
apply_input_recorded at step_id input_id value unit = do
  require_active
  on_present_step step_id (record_input_value at input_id value unit)

unfoldable pub clear_input_value : String → StepAction (Unit {0})
clear_input_value input_id = do
  step ← gets (λ s. s)
  put (record step { inputs = remove input_id step.inputs })
  lift (
      ok_or (elim (get input_id step.inputs) [ none ↦ none | some _ ↦ some tt ])
        (ExecutionError.input_not_recorded input_id))

unfoldable pub apply_input_cleared : String → String → Action (Unit {0})
unfolding require_active on_present_step clear_input_value
apply_input_cleared step_id input_id = do
  require_active
  on_present_step step_id (clear_input_value input_id)
