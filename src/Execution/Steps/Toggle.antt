-- ===== src/Execution/Steps/Toggle.antt =====
-- crates/procnote-core/src/execution/engine.rs: lemmas on toggling a checkbox.
use procnote.Prelude.{
  String, ◌==◌, Bool, ◌≡◌, refl, ap, ◌∙◌, inl, inr, Option, none, some, List, [], ◌∷◌, ◌++◌, arith,
  Bool-cases, if◌then◌else◌,
}
use procnote.Event.{Timestamp}
use procnote.Execution.State.{ExecutionCheckbox, ExecutionTableCell, ExecutionStepContent}
use procnote.Execution.Steps.{
  cell_checkboxes, row_checkboxes, checkboxes, toggle_checkbox, toggle_cells, toggle_rows,
  toggle_item, toggle_content,
}

abbrev pub map_some : {A B : Type 0} → (A → B) → Option A → Option B
map_some f none = none
map_some f (some x) = some (f x)

-- The first of a flat list of checkboxes that has the ID is overwritten.
abbrev pub toggle_first :
    String → Bool → Timestamp → List ExecutionCheckbox → Option (List ExecutionCheckbox)
toggle_first id checked at [] = none
toggle_first id checked at (c ∷ cs) =
    let rest = toggle_first id checked at cs in
    if c.id == id
    then some (record c { checked = checked; toggled_at = some at } ∷ cs)
    else map_some (λ cs'. c ∷ cs') rest

-- In the first part, or else in the second.
abbrev or_second :
    List ExecutionCheckbox
    → List ExecutionCheckbox
    → Option (List ExecutionCheckbox)
    → Option (List ExecutionCheckbox)
    → Option (List ExecutionCheckbox)
or_second xs ys (some xs') _ = some (xs' ++ ys)
or_second xs ys none (some ys') = some (xs ++ ys')
or_second xs ys none none = none

module _ (id : String) (checked : Bool) (at : Timestamp) where
  or_second-cons :
      (c : ExecutionCheckbox) (xs ys : List ExecutionCheckbox)
      (a b : Option (List ExecutionCheckbox))
      → map_some (λ cs. c ∷ cs) (or_second xs ys a b)
        ≡ or_second (c ∷ xs) ys (map_some (λ cs. c ∷ cs) a) b
  or_second-cons c xs ys (some _) b = refl
  or_second-cons c xs ys none (some _) = refl
  or_second-cons c xs ys none none = refl

  toggle_first-append :
      (xs ys : List ExecutionCheckbox)
      → toggle_first id checked at (xs ++ ys)
        ≡ or_second xs ys (toggle_first id checked at xs) (toggle_first id checked at ys)
  toggle_first-append [] ys = empty (toggle_first id checked at ys)
    where
      empty : (o : Option (List ExecutionCheckbox)) → o ≡ or_second [] ys none o
      empty none = refl
      empty (some _) = refl
  toggle_first-append (c ∷ xs) ys = elim (Bool-cases (c.id == id)) [
    | inl here ↦ rw (here, toggle_first) refl
    | inr there ↦
        rw (there, toggle_first)
          (ap (map_some (λ cs. c ∷ cs)) (toggle_first-append xs ys)
            ∙ or_second-cons c xs ys (toggle_first id checked at xs)
                (toggle_first id checked at ys))
  ]

  toggle_cells-checkboxes :
      (cells : List ExecutionTableCell)
      → map_some cell_checkboxes (toggle_cells id checked at cells)
        ≡ toggle_first id checked at (cell_checkboxes cells)
  unfolding toggle_cells toggle_checkbox cell_checkboxes
  toggle_cells-checkboxes [] = refl
  toggle_cells-checkboxes (ExecutionTableCell.checkbox c ∷ cells) =
      ground (arith, toggle_cells-checkboxes cells)
  toggle_cells-checkboxes (ExecutionTableCell.text t ∷ cells) =
      ground (arith, toggle_cells-checkboxes cells)
  toggle_cells-checkboxes (ExecutionTableCell.input i ∷ cells) =
      ground (arith, toggle_cells-checkboxes cells)

  toggle_rows-checkboxes :
      (rows : List (List ExecutionTableCell))
      → map_some row_checkboxes (toggle_rows id checked at rows)
        ≡ toggle_first id checked at (row_checkboxes rows)
  unfolding toggle_rows row_checkboxes
  toggle_rows-checkboxes [] = refl
  toggle_rows-checkboxes (row ∷ rows) = ground (
    arith,
    toggle_cells-checkboxes row,
    toggle_rows-checkboxes rows,
    toggle_first-append (cell_checkboxes row) (row_checkboxes rows),
  )

  -- Toggling a checkbox changes that checkbox and no other: the flat list of checkboxes of the new
  -- content is the list of before with the first checkbox of this ID overwritten, wherever it stands
  -- in the content, in a table or outside; and the content has none of this ID exactly where the list
  -- has none.
  pub toggle_content-checkboxes :
      (content : List ExecutionStepContent)
      → map_some checkboxes (toggle_content id checked at content)
        ≡ toggle_first id checked at (checkboxes content)
  unfolding toggle_content toggle_item toggle_checkbox checkboxes
  toggle_content-checkboxes [] = refl
  toggle_content-checkboxes (ExecutionStepContent.checkbox c ∷ items) =
      ground (arith, toggle_content-checkboxes items)
  toggle_content-checkboxes (ExecutionStepContent.prose t ∷ items) =
      ground (arith, toggle_content-checkboxes items)
  toggle_content-checkboxes (ExecutionStepContent.input_block inputs ∷ items) =
      ground (arith, toggle_content-checkboxes items)
  toggle_content-checkboxes (ExecutionStepContent.table alignments header rows ∷ items) = ground (
    arith,
    toggle_rows-checkboxes rows,
    toggle_content-checkboxes items,
    toggle_first-append (row_checkboxes rows) (checkboxes items),
  )
