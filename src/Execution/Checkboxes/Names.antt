-- ===== src/Execution/Checkboxes/Names.antt =====
-- How the conversion of table cells and rows names their checkboxes.
use procnote.Prelude.{
  suc, ◌+◌, ◌≤◌, String, eq_iff, false, ◌≡◌, refl, sym, ◌∙◌, inl, inr, Option, none, some, List, [],
  ◌∷◌, ◌++◌, map, arith, length, occurrences, occurrences-append, any-occurrences, Option-cases,
}
use mathlib.Core.List.{map-append}
use procnote.Template.{TableCell}
use procnote.Execution.State.{ExecutionCheckbox, ExecutionTableCell}
use procnote.Execution.Steps.{row_checkboxes, cell_checkboxes}
use procnote.Execution.Checkboxes.{
  Namer, is_used, fresh_id, checkbox_id, cell_ids, row_ids, convert_cell, convert_row, convert_rows,
}
use procnote.Execution.Checkboxes.Fresh.{fresh_id_total, fresh_id_new}

-- How a conversion names: the IDs that it makes are the given ones and those that it marks as used,
-- and it marks none twice.
pub record Names (given made : List String) (n n' : Namer) : Type 0 where
  pub balance :
      (id : String)
      → occurrences id made + occurrences id n.used_ids
        ≡ occurrences id given + occurrences id n'.used_ids
  pub once :
      ((id : String) → occurrences id n.used_ids ≤ 1)
      → (id : String) → occurrences id n'.used_ids ≤ 1
  pub grows : (id : String) → occurrences id n.used_ids ≤ occurrences id n'.used_ids

pub Names-nil : (n : Namer) → Names [] [] n n
Names-nil n = record { balance = λ id. refl; once = λ h. h; grows = λ id. omega arith }

pub Names-append :
    {given made given' made' : List String} {n n' n'' : Namer}
    → Names given made n n'
    → Names given' made' n' n''
    → Names (given ++ given') (made ++ made') n n''
Names-append {given} {made} {given'} {made'} a b = record {
  balance = λ id. omega (
    arith,
    a.balance id,
    b.balance id,
    occurrences-append id made made',
    occurrences-append id given given',
  );
  once = λ h. b.once (a.once h);
  grows = λ id. omega (arith, a.grows id, b.grows id);
}

fresh-Names :
    (n n' : Namer) (id : String)
    → is_used n.used_ids id ≡ false
    → n'.used_ids ≡ id ∷ n.used_ids
    → Names [] (id ∷ []) n n'
unfolding is_used
fresh-Names n n' id free used = record {
  balance = λ x. rw used (ground arith);
  once = λ h x. rw used (
      ground (
        arith,
        h x,
        eq_iff id x,
        any-occurrences id n.used_ids free,
        any-occurrences x n.used_ids,
      ));
  grows = λ x. rw used (ground arith);
}

abbrev pub given_of : Option String → List String
given_of none = []
given_of (some id) = id ∷ []

pub checkbox_id-Names :
    (step_id : String) (id : Option String) (n : Namer)
    → Names (given_of id) ((checkbox_id step_id id n).0 ∷ []) n (checkbox_id step_id id n).1
unfolding checkbox_id
checkbox_id-Names step_id (some id) n = record {
  balance = λ x. omega arith;
  once = λ h. h;
  grows = λ x. omega arith;
}
checkbox_id-Names step_id none n =
    elim (Option-cases (fresh_id (suc (length n.used_ids)) step_id n)) [
      | inl none_left ↦ let (found, e) = fresh_id_total step_id n in cc (sym none_left ∙ e)
      | inr ((id, n'), found) ↦
          let (free, used) = fresh_id_new (suc (length n.used_ids)) step_id n id n' found in
          rw (found, checkbox_id) (fresh-Names n n' id free used)
    ]

unfoldable pub ids : List ExecutionCheckbox → List String
ids = map (λ c. c.id)

convert_cell-Names :
    (step_id : String) (cell : TableCell) (n : Namer)
    → Names
        (cell_ids (cell ∷ []))
        (ids (cell_checkboxes ((convert_cell step_id cell n).0 ∷ [])))
        n
        (convert_cell step_id cell n).1
unfolding convert_cell cell_ids cell_checkboxes ids
convert_cell-Names step_id (TableCell.text text) n = Names-nil n
convert_cell-Names step_id (TableCell.input input_id) n = Names-nil n
convert_cell-Names step_id (TableCell.checkbox none checked) n = checkbox_id-Names step_id none n
convert_cell-Names step_id (TableCell.checkbox (some id) checked) n =
    checkbox_id-Names step_id (some id) n

cell_ids-cons :
    (cell : TableCell) (cells : List TableCell)
    → cell_ids (cell ∷ cells) ≡ cell_ids (cell ∷ []) ++ cell_ids cells
unfolding cell_ids
cell_ids-cons (TableCell.checkbox (some id) _) cells = refl
cell_ids-cons (TableCell.checkbox none _) cells = refl
cell_ids-cons (TableCell.text _) cells = refl
cell_ids-cons (TableCell.input _) cells = refl

ids-cell_checkboxes-cons :
    (cell : ExecutionTableCell) (cells : List ExecutionTableCell)
    → ids (cell_checkboxes (cell ∷ cells))
      ≡ ids (cell_checkboxes (cell ∷ [])) ++ ids (cell_checkboxes cells)
unfolding cell_checkboxes ids
ids-cell_checkboxes-cons (ExecutionTableCell.checkbox c) cells = refl
ids-cell_checkboxes-cons (ExecutionTableCell.text _) cells = refl
ids-cell_checkboxes-cons (ExecutionTableCell.input _) cells = refl

convert_row-Names :
    (step_id : String) (cells : List TableCell) (n : Namer)
    → Names
        (cell_ids cells)
        (ids (cell_checkboxes (convert_row step_id cells n).0))
        n
        (convert_row step_id cells n).1
unfolding convert_row
convert_row-Names step_id [] n = unfold cell_ids cell_checkboxes ids in Names-nil n
convert_row-Names step_id (cell ∷ cells) n =
    let (cell', n') = convert_cell step_id cell n in
    let (cells', n'') = convert_row step_id cells n' in
    rw (cell_ids-cons cell cells, ids-cell_checkboxes-cons cell' cells')
      (Names-append (convert_cell-Names step_id cell n) (convert_row-Names step_id cells n'))

pub convert_rows-Names :
    (step_id : String) (rows : List (List TableCell)) (n : Namer)
    → Names
        (row_ids rows)
        (ids (row_checkboxes (convert_rows step_id rows n).0))
        n
        (convert_rows step_id rows n).1
unfolding convert_rows row_ids row_checkboxes ids
convert_rows-Names step_id [] n = Names-nil n
convert_rows-Names step_id (row ∷ rows) n =
    let (row', n') = convert_row step_id row n in
    let (rows', n'') = convert_rows step_id rows n' in
    rw (map-append (λ (c : ExecutionCheckbox). c.id) (cell_checkboxes row') (row_checkboxes rows'))
      (Names-append (convert_row-Names step_id row n) (convert_rows-Names step_id rows n'))
