-- ===== src/Execution/NoteEvents.antt =====
-- crates/procnote-core/src/execution/engine.rs: the arms of `apply` for notes.
use procnote.Prelude.{
  String, ◌==◌, Bool, ◌||◌, Option, none, some, List, [], ◌∷◌, ◌++◌, ok, err, raise, gets, put,
  ◌>>=◌, ◌>>◌, Keyed, values, any, position, erase_idx, if◌then◌else◌,
}
use procnote.Event.{Timestamp}
use procnote.Execution.State.{
  ExecutionError, RecordedNote, StepState, ExecutionState, Action, StepAction,
}
use procnote.Execution.Guards.{require_active, on_present_step}

-- `notes.iter().any(|note| note.id == note_id)`
unfoldable pub has_note : String → List RecordedNote → Bool
has_note note_id notes = any notes (λ note. note.id == note_id)

unfoldable pub note_exists : String → ExecutionState → Bool
unfolding has_note
note_exists note_id s =
    has_note note_id s.global_notes || any (values s.steps) (λ step. has_note note_id step.notes)

unfoldable pub add_note : RecordedNote → StepAction (Unit {0})
add_note note = do step ← gets (λ s. s); put (record step { notes = step.notes ++ note ∷ [] })

unfoldable pub apply_note_added : Timestamp → String → String → Option String → Action (Unit {0})
unfolding require_active on_present_step note_exists add_note
apply_note_added at note_id text none = do
  require_active
  s ← gets (λ s. s)
  if note_exists note_id s
      then raise (ExecutionError.duplicate_note_id note_id)
      else put (record s {
        global_notes = s.global_notes ++ record { id = note_id; text = text; at = at } ∷ [];
      })
apply_note_added at note_id text (some step_id) = do
  require_active
  s ← gets (λ s. s)
  if note_exists note_id s
      then raise (ExecutionError.duplicate_note_id note_id)
      else do on_present_step step_id (add_note (record { id = note_id; text = text; at = at }))

-- `notes.iter().position(..)`, then `notes.remove(index)`
unfoldable pub without_note : String → List RecordedNote → Option (List RecordedNote)
without_note note_id notes = elim (position (λ note. note.id == note_id) notes) [
  | none ↦ none
  | some index ↦ some (erase_idx notes index)
]

-- `values_mut().find_map(..)`: the first step with the note loses it.
unfoldable pub without_step_note : String → Keyed StepState → Option (Keyed StepState)
unfolding without_note
without_step_note note_id [] = none
without_step_note note_id ((key, step) ∷ steps) =
    let rest = without_step_note note_id steps in
    elim (without_note note_id step.notes) [
      | some notes ↦ some ((key, record step { notes = notes }) ∷ steps)
      | none ↦ elim rest [ some steps' ↦ some ((key, step) ∷ steps') | none ↦ none ]
    ]

unfoldable pub remove_note : String → Action (Unit {0})
remove_note note_id s = elim (without_note note_id s.global_notes) [
  | some notes ↦ (ok tt, record s { global_notes = notes })
  | none ↦ elim (without_step_note note_id s.steps) [
    | some steps ↦ (ok tt, record s { steps = steps })
    | none ↦ (err (ExecutionError.note_not_found note_id), s)
  ]
]

unfoldable pub apply_note_removed : String → Action (Unit {0})
unfolding require_active remove_note
apply_note_removed note_id = do require_active; remove_note note_id
