-- ===== src/Execution/Checkboxes/Distinct.antt =====
-- crates/procnote-core/src/execution/engine.rs: lemmas on the IDs of all checkboxes of a step.
use procnote.Prelude.{
  ◌≤◌, String, ◌≡◌, refl, none, some, List, [], ◌∷◌, ◌++◌, map, arith, occurrences,
}
use mathlib.Core.List.{map-append, append-nil}
use procnote.Template.{StepContent}
use procnote.Execution.State.{ExecutionStepContent}
use procnote.Execution.Steps.{checkboxes}
use procnote.Execution.Checkboxes.{
  Namer, given_ids, convert_item, convert_items, execution_content_with_checkbox_ids,
}
use procnote.Execution.Checkboxes.Names.{
  Names, Names-nil, Names-append, checkbox_id-Names, convert_rows-Names, ids,
}

convert_item-Names :
    (step_id : String) (item : StepContent) (n : Namer)
    → Names
        (given_ids (item ∷ []))
        (ids (checkboxes ((convert_item step_id item n).0 ∷ [])))
        n
        (convert_item step_id item n).1
unfolding convert_item given_ids checkboxes ids
convert_item-Names step_id (StepContent.prose text) n = Names-nil n
convert_item-Names step_id (StepContent.input_block inputs) n = Names-nil n
convert_item-Names step_id (StepContent.checkbox none _ _ _) n = checkbox_id-Names step_id none n
convert_item-Names step_id (StepContent.checkbox (some id) _ _ _) n =
    checkbox_id-Names step_id (some id) n
convert_item-Names step_id (StepContent.table _ _ rows) n =
    simp append-nil (convert_rows-Names step_id rows n)

given_ids-cons :
    (item : StepContent) (items : List StepContent)
    → given_ids (item ∷ items) ≡ given_ids (item ∷ []) ++ given_ids items
unfolding given_ids
given_ids-cons (StepContent.prose _) items = refl
given_ids-cons (StepContent.input_block _) items = refl
given_ids-cons (StepContent.checkbox none _ _ _) items = refl
given_ids-cons (StepContent.checkbox (some id) _ _ _) items = refl
given_ids-cons (StepContent.table _ _ rows) items = rw append-nil

ids-checkboxes-cons :
    (item : ExecutionStepContent) (items : List ExecutionStepContent)
    → ids (checkboxes (item ∷ items)) ≡ ids (checkboxes (item ∷ [])) ++ ids (checkboxes items)
unfolding checkboxes ids
ids-checkboxes-cons (ExecutionStepContent.prose _) items = refl
ids-checkboxes-cons (ExecutionStepContent.input_block _) items = refl
ids-checkboxes-cons (ExecutionStepContent.checkbox c) items = refl
ids-checkboxes-cons (ExecutionStepContent.table _ _ rows) items = simp (map-append, append-nil)

convert_items-Names :
    (step_id : String) (items : List StepContent) (n : Namer)
    → Names
        (given_ids items)
        (ids (checkboxes (convert_items step_id items n).0))
        n
        (convert_items step_id items n).1
unfolding convert_items
convert_items-Names step_id [] n = unfold given_ids checkboxes ids in Names-nil n
convert_items-Names step_id (item ∷ items) n =
    let (item', n') = convert_item step_id item n in
    let (items', n'') = convert_items step_id items n' in
    rw (given_ids-cons item items, ids-checkboxes-cons item' items')
      (Names-append (convert_item-Names step_id item n) (convert_items-Names step_id items n'))

-- The IDs of a step's checkboxes, in document order.
abbrev pub checkbox_ids : List ExecutionStepContent → List String
checkbox_ids content = map (λ c. c.id) (checkboxes content)

-- If the IDs that a step's content gives are all different, so are the IDs of all its checkboxes,
-- and each given one is still there: no generated ID is that of another checkbox.
pub checkbox_ids_distinct :
    (step_id : String) (content : List StepContent)
    → ((id : String) → occurrences id (given_ids content) ≤ 1)
    → (id : String)
    → (occurrences id (checkbox_ids (execution_content_with_checkbox_ids step_id content)) ≤ 1)
      × (occurrences id (given_ids content)
          ≤ occurrences id (checkbox_ids (execution_content_with_checkbox_ids step_id content)))
unfolding execution_content_with_checkbox_ids ids
checkbox_ids_distinct step_id content distinct id =
    let start : Namer = record { used_ids = given_ids content; checkbox_index = 0 } in
    let names = convert_items-Names step_id content start in
    (
      omega (arith, names.balance id, names.once distinct id),
      omega (arith, names.balance id, names.grows id),
    )
