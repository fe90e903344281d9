-- ===== src/Execution/Start/Assigned.antt =====
-- crates/procnote-core/src/execution/engine.rs: what the checkbox IDs of `start` leave of a template's
-- content, and the steps that they are given to.
use procnote.Prelude.{
  ℕ, zero, suc, ◌+◌, String, ◌≡◌, refl, ap, ◌∙◌, none, some, List, [], ◌∷◌, ◌++◌, map, arith, get,
  Keyed,
}
use procnote.Template.{Step, StepContent, TableCell}
use procnote.Execution.State.{StepState}
use procnote.Execution.Checkboxes.{candidate, cell_ids, row_ids, given_ids}
use procnote.Execution.Transition.{new_step}
use procnote.Execution.Start.{
  template_step_id, next_checkbox_id, assign_cell, assign_row, assign_rows, assign_item,
  assign_items,
}

abbrev plain_cell : TableCell → TableCell
plain_cell (TableCell.checkbox _ checked) = TableCell.checkbox none checked
plain_cell cell = cell

abbrev plain_item : StepContent → StepContent
plain_item (StepContent.checkbox _ text checked nesting_level) =
    StepContent.checkbox none text checked nesting_level
plain_item (StepContent.table alignments header rows) =
    StepContent.table alignments header (map (map plain_cell) rows)
plain_item item = item

-- Content but for the IDs of its checkboxes.
abbrev pub without_ids : List StepContent → List StepContent
without_ids content = map plain_item content

abbrev row_boxes : List TableCell → ℕ
row_boxes [] = 0
row_boxes (TableCell.checkbox _ _ ∷ cells) = suc (row_boxes cells)
row_boxes (_ ∷ cells) = row_boxes cells

abbrev rows_boxes : List (List TableCell) → ℕ
rows_boxes [] = 0
rows_boxes (row ∷ rows) = row_boxes row + rows_boxes rows

-- The number of checkboxes, those in tables included.
abbrev pub boxes : List StepContent → ℕ
boxes [] = 0
boxes (StepContent.checkbox _ _ _ _ ∷ items) = suc (boxes items)
boxes (StepContent.table _ _ rows ∷ items) = rows_boxes rows + boxes items
boxes (_ ∷ items) = boxes items

-- A number of checkbox IDs of a step, from an index on.
abbrev pub cb_ids : String → ℕ → ℕ → List String
cb_ids k i zero = []
cb_ids k i (suc n) = candidate k i ∷ cb_ids k (i + 1) n

-- The step of the map under this ID is a new one with the template step's heading and content, in
-- which the checkboxes have the IDs `{step}/cb-0`, `{step}/cb-1` and so on, in this order.
abbrev pub IsStepOf : Keyed StepState → String → Step → Type 0
IsStepOf m k step =
    (content : List StepContent) × (get k m ≡ some (new_step k step.heading content))
    × (without_ids content ≡ without_ids step.content)
    × (given_ids content ≡ cb_ids k 0 (boxes step.content))

-- The map has all of a template's steps, from an index on.
abbrev pub HasSteps : Keyed StepState → ℕ → List Step → Type 0
HasSteps m i [] = Unit
HasSteps m i (step ∷ steps) = IsStepOf m (template_step_id i) step × HasSteps m (i + 1) steps

both : {A B C : Type 0} (f : A → B → C) {a a' : A} {b b' : B} → a ≡ a' → b ≡ b' → f a b ≡ f a' b'
both f {a} {a'} {b} {b'} p q = ap (λ x. f x b) p ∙ ap (f a') q

cb_ids-append : (k : String) (i m n : ℕ) → cb_ids k i m ++ cb_ids k (i + m) n ≡ cb_ids k i (m + n)
cb_ids-append k i zero n =
    let same : i + 0 ≡ i = omega arith in
    let rest : n ≡ 0 + n = omega arith in ap (λ j. cb_ids k j n) same ∙ ap (cb_ids k i) rest
cb_ids-append k i (suc m) n =
    let next : i + suc m ≡ (i + 1) + m = omega arith in
    let rest : suc (m + n) ≡ suc m + n = omega arith in
    ap (λ j. candidate k i ∷ cb_ids k (i + 1) m ++ cb_ids k j n) next
    ∙ ap (λ x. candidate k i ∷ x) (cb_ids-append k (i + 1) m n)
    ∙ ap (cb_ids k i) rest

row-Assigned :
    (k : String) (row : List TableCell) (i : ℕ)
    → (map plain_cell (assign_row k row i).0 ≡ map plain_cell row)
      × (cell_ids (assign_row k row i).0 ≡ cb_ids k i (row_boxes row))
      × ((assign_row k row i).1 ≡ i + row_boxes row)
unfolding assign_row assign_cell next_checkbox_id cell_ids candidate
row-Assigned k [] i = (refl, refl, omega arith)
row-Assigned k (TableCell.checkbox id checked ∷ cells) i =
    let (plain, ids, next) = row-Assigned k cells (i + 1) in
    (
      ap (λ x. TableCell.checkbox none checked ∷ x) plain,
      ap (λ x. candidate k i ∷ x) ids,
      omega (arith, next),
    )
row-Assigned k (TableCell.text text ∷ cells) i =
    let (plain, ids, next) = row-Assigned k cells i in
    (ap (λ x. TableCell.text text ∷ x) plain, ids, next)
row-Assigned k (TableCell.input input ∷ cells) i =
    let (plain, ids, next) = row-Assigned k cells i in
    (ap (λ x. TableCell.input input ∷ x) plain, ids, next)

rows-Assigned :
    (k : String) (rows : List (List TableCell)) (i : ℕ)
    → (map (map plain_cell) (assign_rows k rows i).0 ≡ map (map plain_cell) rows)
      × (row_ids (assign_rows k rows i).0 ≡ cb_ids k i (rows_boxes rows))
      × ((assign_rows k rows i).1 ≡ i + rows_boxes rows)
unfolding assign_rows row_ids
rows-Assigned k [] i = (refl, refl, omega arith)
rows-Assigned k (row ∷ rows) i =
    let (plain, ids, next) = row-Assigned k row i in
    let (plain', ids', next') = rows-Assigned k rows (assign_row k row i).1 in
    (
      both (λ x y. x ∷ y) plain plain',
      both (λ x y. x ++ y) ids (ids' ∙ ap (λ j. cb_ids k j (rows_boxes rows)) next)
          ∙ cb_ids-append k i (row_boxes row) (rows_boxes rows),
      omega (arith, next, next'),
    )

-- The IDs that `start` gives to content: it keeps the rest, names each checkbox in order, and passes
-- the next index on.
pub items-Assigned :
    (k : String) (items : List StepContent) (i : ℕ)
    → (without_ids (assign_items k items i).0 ≡ without_ids items)
      × (given_ids (assign_items k items i).0 ≡ cb_ids k i (boxes items))
      × ((assign_items k items i).1 ≡ i + boxes items)
unfolding assign_items assign_item next_checkbox_id given_ids candidate
items-Assigned k [] i = (refl, refl, omega arith)
items-Assigned k (StepContent.checkbox id text checked level ∷ items) i =
    let (plain, ids, next) = items-Assigned k items (i + 1) in
    (
      ap (λ x. StepContent.checkbox none text checked level ∷ x) plain,
      ap (λ x. candidate k i ∷ x) ids,
      omega (arith, next),
    )
items-Assigned k (StepContent.table alignments header rows ∷ items) i =
    let (plain, ids, next) = rows-Assigned k rows i in
    let (plain', ids', next') = items-Assigned k items (assign_rows k rows i).1 in
    (
      both (λ x y. StepContent.table alignments header x ∷ y) plain plain',
      both (λ x y. x ++ y) ids (ids' ∙ ap (λ j. cb_ids k j (boxes items)) next)
          ∙ cb_ids-append k i (rows_boxes rows) (boxes items),
      omega (arith, next, next'),
    )
items-Assigned k (StepContent.prose text ∷ items) i =
    let (plain, ids, next) = items-Assigned k items i in
    (ap (λ x. StepContent.prose text ∷ x) plain, ids, next)
items-Assigned k (StepContent.input_block inputs ∷ items) i =
    let (plain, ids, next) = items-Assigned k items i in
    (ap (λ x. StepContent.input_block inputs ∷ x) plain, ids, next)
