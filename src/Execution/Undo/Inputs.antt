-- ===== src/Execution/Undo/Inputs.antt =====
-- crates/procnote-core/src/execution/engine.rs: `InputRecorded` and `InputCleared`.
use procnote.Prelude.{
  String, eq_refl, ◌≡◌, refl, ◌∙◌, inl, inr, Option, none, some, [], ◌∷◌, arith, Result, ok, get,
  insert, get-insert, remove-insert_absent, Option-cases, Result-cases,
}
use procnote.Event.{Timestamp, ExecutionId, input_recorded, input_cleared}
use procnote.Execution.State.{ExecutionError, StepState, ExecutionState, RecordedInput}
use procnote.Execution.Guards.{}
use procnote.Execution.Steps.{scalar_input_label}
use procnote.Execution.StepEvents.{
  record_input_value, clear_input_value, apply_input_recorded, apply_input_cleared,
}
use procnote.Execution.Apply.{apply, apply_event}
use procnote.Execution.Transition.{write_step}
use procnote.Execution.Replay.{counted}
use procnote.Execution.Undo.{undo_by, was_run, there, back_on_present}

module _ (at : Timestamp) (input_id value : String) (unit : Option String) (step : StepState) where
  cleared :
      (input : RecordedInput)
      → get input_id step.inputs ≡ none
      → clear_input_value input_id (record step { inputs = insert input_id input step.inputs })
        ≡ (ok tt, step)
  unfolding clear_input_value
  cleared input new =
      let q : get input_id (insert input_id input step.inputs) ≡ some input =
        ground (arith, get-insert input_id input_id input step.inputs, eq_refl input_id) in
      simp (q, remove-insert_absent input_id input step.inputs new)

  -- What was recorded is taken back by clearing the input.
  abbrev ClearsTo : Result ExecutionError (Unit {0}) → StepState → Type 0
  ClearsTo r t =
      r ≡ ok tt → (clear_input_value input_id t ≡ (ok tt, step)) × (t.status ≡ step.status)

  record_labelled :
      (label : String)
      → scalar_input_label step input_id ≡ ok label
      → ClearsTo
          (record_input_value at input_id value unit step).0
          (record_input_value at input_id value unit step).1
  unfolding record_input_value
  record_labelled label found = elim (Option-cases (get input_id step.inputs)) [
    | inr (old, there) ↦ rw (found, there) λ h. cc
    | inl free ↦ elim (Option-cases (get input_id step.attachments)) [
      | inl no_entry ↦ rw (found, free, no_entry) λ h. (cleared (input label) free, refl)
      | inr ([], entry) ↦ rw (found, free, entry) λ h. (cleared (input label) free, refl)
      | inr (file ∷ files, entry) ↦ rw (found, free, entry) λ h. cc
    ]
  ]
    where
      input : String → RecordedInput
      input label = record { label = label; value = value; unit = unit; at = at }

  record-ClearsTo :
      ClearsTo
        (record_input_value at input_id value unit step).0
        (record_input_value at input_id value unit step).1
  unfolding record_input_value
  record-ClearsTo = elim (Result-cases (scalar_input_label step input_id)) [
    | inl (e, wrong) ↦ rw wrong λ h. cc
    | inr (label, found) ↦ record_labelled label found
  ]

-- Clearing an input takes back its value: if `apply` accepts an `InputRecorded`, it accepts the
-- `InputCleared` of this input after it, and leaves the state of before but for the count and the time
-- of the two events.
pub input_recorded-input_cleared :
    (at at' : Timestamp) (id id' : ExecutionId) (step_id input_id value reason : String)
    (unit : Option String) (s : ExecutionState)
    → (apply (input_recorded at id step_id input_id value unit) s).0 ≡ ok tt
    → apply
        (input_cleared at' id' step_id input_id reason)
        (apply (input_recorded at id step_id input_id value unit) s).1
      ≡ (
        ok tt,
        counted
            (input_cleared at' id' step_id input_id reason)
            (counted (input_recorded at id step_id input_id value unit) s),
      )
unfolding apply_event apply_input_recorded apply_input_cleared
input_recorded-input_cleared at at' id id' step_id input_id value reason unit s accepted =
    let event = input_recorded at id step_id input_id value unit in
    let back = input_cleared at' id' step_id input_id reason in
    let m = record_input_value at input_id value unit in
    let m' = clear_input_value input_id in
    let was = was_run event step_id m s refl accepted in
    let (restores, kept) = record-ClearsTo at input_id value unit was.step was.accepts in
    undo_by event back s (write_step step_id (m was.step).1 s)
      (there event step_id m s refl accepted)
      (back_on_present event step_id m s refl accepted m' (kept ∙ was.here) restores)
