-- ===== src/Execution/Start.antt =====
-- crates/procnote-core/src/execution/engine.rs: `ExecutionState::start`. The new UUID, the time and
-- the generated name are arguments.
pub mod Assigned
pub mod Adds
pub mod Total
use procnote.Prelude.{
  ℕ, ◌+◌, String, Option, none, some, List, [], ◌∷◌, Result, ok, err, pure, lift, gets, ◌>>=◌, ◌>>◌,
  append, to_string,
}
use procnote.Template.{ProcedureTemplate, Step, StepContent, TableCell}
use procnote.Event.{Timestamp, ExecutionId, Event, execution_started, execution_renamed, step_added}
use procnote.Execution.State.{ExecutionError, ExecutionStatus, pending, Action}
use procnote.Execution.Apply.{apply}

-- `format!("step-{step_index}")`
unfoldable pub template_step_id : ℕ → String
template_step_id step_index = append "step-" (to_string step_index)

-- The closure `next_checkbox_id`, whose counter is passed on.
unfoldable pub next_checkbox_id : String → ℕ → Option String × ℕ
next_checkbox_id step_id cb_index =
    (some (append step_id (append "/cb-" (to_string cb_index))), cb_index + 1)

unfoldable pub assign_cell : String → TableCell → ℕ → TableCell × ℕ
unfolding next_checkbox_id
assign_cell step_id (TableCell.checkbox _ checked) i =
    let (id, i') = next_checkbox_id step_id i in (TableCell.checkbox id checked, i')
assign_cell step_id other i = (other, i)

unfoldable pub assign_row : String → List TableCell → ℕ → List TableCell × ℕ
unfolding assign_cell
assign_row step_id [] i = ([], i)
assign_row step_id (cell ∷ cells) i =
    let (cell', i') = assign_cell step_id cell i in
    let (cells', i'') = assign_row step_id cells i' in (cell' ∷ cells', i'')

unfoldable pub assign_rows : String → List (List TableCell) → ℕ → List (List TableCell) × ℕ
unfolding assign_row
assign_rows step_id [] i = ([], i)
assign_rows step_id (row ∷ rows) i =
    let (row', i') = assign_row step_id row i in
    let (rows', i'') = assign_rows step_id rows i' in (row' ∷ rows', i'')

unfoldable pub assign_item : String → StepContent → ℕ → StepContent × ℕ
unfolding next_checkbox_id assign_rows
assign_item step_id (StepContent.checkbox _ text checked nesting_level) i =
    let (id, i') = next_checkbox_id step_id i in
    (StepContent.checkbox id text checked nesting_level, i')
assign_item step_id (StepContent.table alignments header rows) i =
    let (rows', i') = assign_rows step_id rows i in (StepContent.table alignments header rows', i')
assign_item step_id other i = (other, i)

unfoldable pub assign_items : String → List StepContent → ℕ → List StepContent × ℕ
unfolding assign_item
assign_items step_id [] i = ([], i)
assign_items step_id (item ∷ items) i =
    let (item', i') = assign_item step_id item i in
    let (items', i'') = assign_items step_id items i' in (item' ∷ items', i'')

-- The event that adds the template's step with this index.
unfoldable pub template_step_event : Timestamp → ExecutionId → ℕ → Step → Event
template_step_event now execution_id step_index step =
    let step_id = template_step_id step_index in
    step_added now execution_id step_id step.heading (assign_items step_id step.content 0).0 none

-- The loop over the template's steps.
unfoldable pub start_steps : Timestamp → ExecutionId → ℕ → List Step → Action (List Event)
start_steps now execution_id step_index [] = pure []
start_steps now execution_id step_index (step ∷ steps) = do
  let event = template_step_event now execution_id step_index step
  apply event
  events ← start_steps now execution_id (step_index + 1) steps
  pure (event ∷ events)

unfoldable pub pending_result : ExecutionStatus → Result ExecutionError (Unit {0})
pending_result pending = ok tt
pending_result _ = err ExecutionError.already_started

unfoldable pub started_event : Timestamp → ExecutionId → ProcedureTemplate → Event
started_event now execution_id template =
    execution_started now execution_id template.metadata.id template.metadata.title
      template.metadata.version

unfoldable pub start : Timestamp → ExecutionId → String → ProcedureTemplate → Action (List Event)
unfolding pending_result
start now execution_id auto_name template = do
  s ← gets (λ s. s)
  lift (pending_result s.status)
  let started = started_event now execution_id template
  apply started
  let named = execution_renamed now execution_id auto_name
  apply named
  steps ← start_steps now execution_id 0 template.steps
  pure (started ∷ named ∷ steps)
