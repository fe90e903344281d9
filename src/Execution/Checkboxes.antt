-- ===== src/Execution/Checkboxes.antt =====
-- crates/procnote-core/src/execution/engine.rs: `execution_content_with_checkbox_ids`, which turns
-- the content of a `StepAdded` event into runtime content and names the checkboxes without an ID.
pub mod Fresh
pub mod Names
pub mod Distinct
use procnote.Prelude.{
  ℕ, zero, suc, ◌+◌, String, ◌==◌, Bool, Option, none, some, List, [], ◌∷◌, ◌++◌, any, length,
  append, to_string, if◌then◌else◌,
}
use procnote.Template.{TableCell, StepContent}
use procnote.Execution.State.{ExecutionTableCell, ExecutionStepContent}

unfoldable pub cell_ids : List TableCell → List String
cell_ids [] = []
cell_ids (TableCell.checkbox (some id) _ ∷ cells) = id ∷ cell_ids cells
cell_ids (_ ∷ cells) = cell_ids cells

unfoldable pub row_ids : List (List TableCell) → List String
unfolding cell_ids
row_ids [] = []
row_ids (row ∷ rows) = cell_ids row ++ row_ids rows

-- The IDs that the content gives itself: the first value of `used_ids`.
unfoldable pub given_ids : List StepContent → List String
unfolding row_ids
given_ids [] = []
given_ids (StepContent.checkbox (some id) _ _ _ ∷ items) = id ∷ given_ids items
given_ids (StepContent.table _ _ rows ∷ items) = row_ids rows ++ given_ids items
given_ids (_ ∷ items) = given_ids items

-- `HashSet::contains`
unfoldable pub is_used : List String → String → Bool
is_used used id = any used (λ u. u == id)

-- `format!("{step_id}/cb-{index}")`
unfoldable pub candidate : String → ℕ → String
unfolding to_string
candidate step_id index = append step_id (append "/cb-" (to_string index))

-- The variables that the closure `checkbox_id` captures.
pub record Namer : Type 0 where
  pub used_ids : List String
  pub checkbox_index : ℕ

-- `loop { .. }`: `insert` returns false for a candidate that is in the set. `none`: out of fuel.
unfoldable pub fresh_id : ℕ → String → Namer → Option (String × Namer)
fresh_id zero step_id n = none
fresh_id (suc fuel) step_id n =
    let next = fresh_id fuel step_id (record n { checkbox_index = n.checkbox_index + 1 }) in
    let id = candidate step_id n.checkbox_index in
    if is_used n.used_ids id
    then next
    else some (id, record { used_ids = id ∷ n.used_ids; checkbox_index = n.checkbox_index + 1 })

-- One round more than there are used IDs is enough fuel, so the case `none` is never met.
unfoldable pub checkbox_id : String → Option String → Namer → String × Namer
checkbox_id step_id (some id) n = (id, n)
checkbox_id step_id none n = elim (fresh_id (suc (length n.used_ids)) step_id n) [
  | some found ↦ found
  | none ↦ ("", n)
]

unfoldable pub convert_cell : String → TableCell → Namer → ExecutionTableCell × Namer
unfolding checkbox_id
convert_cell step_id (TableCell.text text) n = (ExecutionTableCell.text text, n)
convert_cell step_id (TableCell.input input_id) n = (ExecutionTableCell.input input_id, n)
convert_cell step_id (TableCell.checkbox id checked) n =
    let (id', n') = checkbox_id step_id id n in
    (
      ExecutionTableCell.checkbox (record {
        id = id';
        text = "";
        initial_checked = checked;
        checked = checked;
        nesting_level = 0;
        toggled_at = none;
      }),
      n',
    )

unfoldable pub convert_row : String → List TableCell → Namer → List ExecutionTableCell × Namer
unfolding convert_cell
convert_row step_id [] n = ([], n)
convert_row step_id (cell ∷ cells) n =
    let (cell', n') = convert_cell step_id cell n in
    let (cells', n'') = convert_row step_id cells n' in (cell' ∷ cells', n'')

unfoldable pub convert_rows :
    String → List (List TableCell) → Namer → List (List ExecutionTableCell) × Namer
unfolding convert_row
convert_rows step_id [] n = ([], n)
convert_rows step_id (row ∷ rows) n =
    let (row', n') = convert_row step_id row n in
    let (rows', n'') = convert_rows step_id rows n' in (row' ∷ rows', n'')

-- `unwrap_or_default`
level_or_default : Option ℕ → ℕ
level_or_default none = 0
level_or_default (some level) = level

unfoldable pub convert_item : String → StepContent → Namer → ExecutionStepContent × Namer
unfolding checkbox_id convert_rows level_or_default
convert_item step_id (StepContent.prose text) n = (ExecutionStepContent.prose text, n)
convert_item step_id (StepContent.checkbox id text checked nesting_level) n =
    let (id', n') = checkbox_id step_id id n in
    (
      ExecutionStepContent.checkbox (record {
        id = id';
        text = text;
        initial_checked = checked;
        checked = checked;
        nesting_level = level_or_default nesting_level;
        toggled_at = none;
      }),
      n',
    )
convert_item step_id (StepContent.input_block inputs) n =
    (ExecutionStepContent.input_block inputs, n)
convert_item step_id (StepContent.table alignments header rows) n =
    let (rows', n') = convert_rows step_id rows n in
    (ExecutionStepContent.table alignments header rows', n')

unfoldable pub convert_items : String → List StepContent → Namer → List ExecutionStepContent × Namer
unfolding convert_item
convert_items step_id [] n = ([], n)
convert_items step_id (item ∷ items) n =
    let (item', n') = convert_item step_id item n in
    let (items', n'') = convert_items step_id items n' in (item' ∷ items', n'')

unfoldable pub execution_content_with_checkbox_ids :
    String → List StepContent → List ExecutionStepContent
unfolding convert_items
execution_content_with_checkbox_ids step_id content =
    (convert_items step_id content (record { used_ids = given_ids content; checkbox_index = 0 })).0
