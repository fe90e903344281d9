-- ===== src/Execution/Steps.antt =====
-- crates/procnote-core/src/execution/engine.rs: `impl StepState`, and the checkboxes of a step.
pub mod Toggle
use procnote.Prelude.{
  String, ◌==◌, Bool, not, ◌||◌, Option, none, some, List, [], ◌∷◌, ◌++◌, Result, ok, err, find?,
  find_map, any, is_empty, values, bool_eq, if◌then◌else◌,
}
use procnote.Template.{InputType, InputDefinition, attachment}
use procnote.Event.{Timestamp}
use procnote.Execution.State.{
  ExecutionError, ExecutionCheckbox, ExecutionTableCell, ExecutionStepContent, StepState,
}

unfoldable pub input_definition_of : String → ExecutionStepContent → Option InputDefinition
input_definition_of input_id (ExecutionStepContent.input_block inputs) =
    find? (λ d. d.id == input_id) inputs
input_definition_of input_id _ = none

unfoldable pub input_definition : List ExecutionStepContent → String → Option InputDefinition
unfolding input_definition_of
input_definition content input_id = find_map (input_definition_of input_id) content

unfoldable pub input_type : StepState → String → Option InputType
unfolding input_definition
input_type step input_id = elim (input_definition step.content input_id) [
  | none ↦ none
  | some d ↦ some d.input_type
]

attachment_input : String → Option InputType → Result ExecutionError (Unit {0})
attachment_input input_id (some attachment) = ok tt
attachment_input input_id _ = err (ExecutionError.attachment_input_not_found input_id)

unfoldable pub require_attachment_input : StepState → String → Result ExecutionError (Unit {0})
unfolding input_type attachment_input
require_attachment_input step input_id = attachment_input input_id (input_type step input_id)

scalar_label : String → InputType → String → Result ExecutionError String
scalar_label input_id attachment label = err (ExecutionError.input_is_attachment input_id)
scalar_label input_id _ label = ok label

unfoldable pub scalar_input_label : StepState → String → Result ExecutionError String
unfolding input_definition scalar_label
scalar_input_label step input_id = elim (input_definition step.content input_id) [
  | none ↦ err (ExecutionError.input_not_found input_id)
  | some d ↦ scalar_label input_id d.input_type d.label
]

unfoldable pub cell_checkboxes : List ExecutionTableCell → List ExecutionCheckbox
cell_checkboxes [] = []
cell_checkboxes (ExecutionTableCell.checkbox c ∷ cells) = c ∷ cell_checkboxes cells
cell_checkboxes (_ ∷ cells) = cell_checkboxes cells

unfoldable pub row_checkboxes : List (List ExecutionTableCell) → List ExecutionCheckbox
unfolding cell_checkboxes
row_checkboxes [] = []
row_checkboxes (row ∷ rows) = cell_checkboxes row ++ row_checkboxes rows

-- The step's checkboxes, those of table cells included, in document order.
unfoldable pub checkboxes : List ExecutionStepContent → List ExecutionCheckbox
unfolding row_checkboxes
checkboxes [] = []
checkboxes (ExecutionStepContent.checkbox c ∷ items) = c ∷ checkboxes items
checkboxes (ExecutionStepContent.table _ _ rows ∷ items) = row_checkboxes rows ++ checkboxes items
checkboxes (_ ∷ items) = checkboxes items

-- `checkboxes_mut().find(..)` followed by the two assignments of `CheckboxToggled`: the first
-- checkbox with the ID is overwritten; `none` where no checkbox has it.
unfoldable pub toggle_checkbox :
    String → Bool → Timestamp → ExecutionCheckbox → Option ExecutionCheckbox
toggle_checkbox checkbox_id checked at c =
    if c.id == checkbox_id
    then some (record c { checked = checked; toggled_at = some at })
    else none

unfoldable pub toggle_cells :
    String → Bool → Timestamp → List ExecutionTableCell → Option (List ExecutionTableCell)
unfolding toggle_checkbox
toggle_cells checkbox_id checked at [] = none
toggle_cells checkbox_id checked at (ExecutionTableCell.checkbox c ∷ cells) =
    let rest = toggle_cells checkbox_id checked at cells in
    elim (toggle_checkbox checkbox_id checked at c) [
      | some c' ↦ some (ExecutionTableCell.checkbox c' ∷ cells)
      | none ↦ elim rest [
        | some cells' ↦ some (ExecutionTableCell.checkbox c ∷ cells')
        | none ↦ none
      ]
    ]
toggle_cells checkbox_id checked at (cell ∷ cells) =
    elim (toggle_cells checkbox_id checked at cells) [
      | some cells' ↦ some (cell ∷ cells')
      | none ↦ none
    ]

unfoldable pub toggle_rows :
    String
    → Bool
    → Timestamp
    → List (List ExecutionTableCell)
    → Option (List (List ExecutionTableCell))
unfolding toggle_cells
toggle_rows checkbox_id checked at [] = none
toggle_rows checkbox_id checked at (row ∷ rows) =
    let rest = toggle_rows checkbox_id checked at rows in
    elim (toggle_cells checkbox_id checked at row) [
      | some row' ↦ some (row' ∷ rows)
      | none ↦ elim rest [ some rows' ↦ some (row ∷ rows') | none ↦ none ]
    ]

unfoldable pub toggle_item :
    String → Bool → Timestamp → ExecutionStepContent → Option ExecutionStepContent
unfolding toggle_checkbox toggle_rows
toggle_item checkbox_id checked at (ExecutionStepContent.checkbox c) =
    elim (toggle_checkbox checkbox_id checked at c) [
      | some c' ↦ some (ExecutionStepContent.checkbox c')
      | none ↦ none
    ]
toggle_item checkbox_id checked at (ExecutionStepContent.table alignments header rows) =
    elim (toggle_rows checkbox_id checked at rows) [
      | some rows' ↦ some (ExecutionStepContent.table alignments header rows')
      | none ↦ none
    ]
toggle_item checkbox_id checked at _ = none

unfoldable pub toggle_content :
    String → Bool → Timestamp → List ExecutionStepContent → Option (List ExecutionStepContent)
unfolding toggle_item
toggle_content checkbox_id checked at [] = none
toggle_content checkbox_id checked at (item ∷ items) =
    let rest = toggle_content checkbox_id checked at items in
    elim (toggle_item checkbox_id checked at item) [
      | some item' ↦ some (item' ∷ items)
      | none ↦ elim rest [ some items' ↦ some (item ∷ items') | none ↦ none ]
    ]

unfoldable pub has_captured_data : StepState → Bool
unfolding checkboxes
has_captured_data step =
    not (is_empty step.inputs)
    || any (values step.attachments) (λ files. not (is_empty files))
    || not (is_empty step.notes)
    || any (checkboxes step.content) (λ c. not (bool_eq c.initial_checked c.checked))
