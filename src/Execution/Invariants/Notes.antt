-- ===== src/Execution/Invariants/Notes.antt =====
-- crates/procnote-core/src/execution/engine.rs: the IDs of notes, as an invariant.
use procnote.Prelude.{
  ℕ, zero, suc, ◌+◌, ◌≤◌, String, ◌==◌, eq_iff, false, ◌≡◌, refl, ap, inl, inr, none, some, List,
  [], ◌∷◌, ◌++◌, arith, ok, get, insert, Keyed, erase_idx, values, any, Option-cases, Bool-cases,
  if◌then◌else◌, position,
}
use procnote.Event.{Event}
use procnote.Execution.State.{ExecutionState, StepState, RecordedNote, RecordedAttachment, new}
use procnote.Execution.NoteEvents.{has_note, note_exists, without_note, without_step_note}
use procnote.Execution.Apply.{from_events}
use procnote.Execution.Sound.{IsSoundState}
use procnote.Execution.Relation.{StepMove, with_files}
use procnote.Execution.Transition.{Transition, new_step}
use procnote.Execution.Replay.{counted, replay_invariant, new-IsSoundState}

abbrev pub notes_with : String → List RecordedNote → ℕ
notes_with id [] = 0
notes_with id (n ∷ notes) = let rest = notes_with id notes in if n.id == id then suc rest else rest

abbrev pub step_notes_with : String → Keyed StepState → ℕ
step_notes_with id [] = 0
step_notes_with id ((_, step) ∷ steps) = notes_with id step.notes + step_notes_with id steps

-- How many notes of the execution have the ID.
abbrev pub notes_in : String → ExecutionState → ℕ
notes_in id s = notes_with id s.global_notes + step_notes_with id s.steps

abbrev pub HasUniqueNotes : ExecutionState → Type 0
HasUniqueNotes s = (id : String) → notes_in id s ≤ 1

notes_with-append :
    (id : String) (xs ys : List RecordedNote)
    → notes_with id (xs ++ ys) ≡ notes_with id xs + notes_with id ys
notes_with-append id [] ys = omega arith
notes_with-append id (x ∷ xs) ys = ground (arith, notes_with-append id xs ys)

notes_with-erase_idx :
    (id : String) (notes : List RecordedNote) (i : ℕ)
    → notes_with id (erase_idx notes i) ≤ notes_with id notes
notes_with-erase_idx id [] i = omega arith
notes_with-erase_idx id (n ∷ notes) zero = ground arith
notes_with-erase_idx id (n ∷ notes) (suc i) = ground (arith, notes_with-erase_idx id notes i)

notes_with-without_note :
    (id note_id : String) (notes left : List RecordedNote)
    → without_note note_id notes ≡ some left
    → notes_with id left ≤ notes_with id notes
unfolding without_note
notes_with-without_note id note_id notes left h =
    elim (Option-cases (position (λ (note : RecordedNote). note.id == note_id) notes)) [
      | inl absent ↦ cc (rw (absent, without_note) at h)
      | inr (i, at) ↦
          let q : erase_idx notes i ≡ left = ground arith in
          rw (← q) (notes_with-erase_idx id notes i)
    ]

step_notes-without_step_note :
    (id note_id : String) (steps left : Keyed StepState)
    → without_step_note note_id steps ≡ some left
    → step_notes_with id left ≤ step_notes_with id steps
unfolding without_step_note
step_notes-without_step_note id note_id [] left h = cc
step_notes-without_step_note id note_id ((k, step) ∷ steps) left h =
    elim (Option-cases (without_note note_id step.notes)) [
      | inr (notes, found) ↦
          ground (arith, found, notes_with-without_note id note_id step.notes notes found)
      | inl absent ↦ elim (Option-cases (without_step_note note_id steps)) [
        | inr (rest, found) ↦
            ground (arith, absent, found, step_notes-without_step_note id note_id steps rest found)
        | inl missing ↦ ground arith
      ]
    ]

-- A written step brings its notes in place of those of the step before.
step_notes-insert :
    (id k : String) (step step' : StepState) (steps : Keyed StepState)
    → get k steps ≡ some step
    → step_notes_with id (insert k step' steps) + notes_with id step.notes
      ≡ step_notes_with id steps + notes_with id step'.notes
unfolding get insert
step_notes-insert id k step step' [] found = cc
step_notes-insert id k step step' ((j, t) ∷ steps) found = elim (Bool-cases (j == k)) [
  | inl same ↦ let q : t ≡ step = ground arith in rw (same, q) (omega arith)
  | inr other ↦
      let rest : get k steps ≡ some step = rw (other, get) at found in
      rw (other, insert) (omega (arith, step_notes-insert id k step step' steps rest))
]

step_notes-insert_new :
    (id k : String) (step : StepState) (steps : Keyed StepState)
    → get k steps ≡ none
    → step_notes_with id (insert k step steps) ≡ step_notes_with id steps + notes_with id step.notes
unfolding get insert
step_notes-insert_new id k step [] absent = omega arith
step_notes-insert_new id k step ((j, t) ∷ steps) absent = elim (Bool-cases (j == k)) [
  | inl same ↦ cc (rw (same, get) at absent)
  | inr other ↦
      let rest : get k steps ≡ none = rw (other, get) at absent in
      rw (other, insert) (omega (arith, step_notes-insert_new id k step steps rest))
]

-- `note_exists` is false exactly where no note has the ID.
has_note-notes_with :
    (id : String) (notes : List RecordedNote) → has_note id notes ≡ false → notes_with id notes ≡ 0
unfolding has_note
has_note-notes_with id [] h = refl
has_note-notes_with id (n ∷ notes) h = ground (arith, has_note-notes_with id notes)

step_notes_none :
    (id : String) (steps : Keyed StepState)
    → any (values steps) (λ step. has_note id step.notes) ≡ false
    → step_notes_with id steps ≡ 0
step_notes_none id [] h = refl
step_notes_none id ((k, step) ∷ steps) h =
    ground (arith, has_note-notes_with id step.notes, step_notes_none id steps)

note_exists-notes_in :
    (id : String) (s : ExecutionState) → note_exists id s ≡ false → notes_in id s ≡ 0
unfolding note_exists
note_exists-notes_in id s h =
    ground (arith, has_note-notes_with id s.global_notes, step_notes_none id s.steps)

with_files-notes :
    (input_id : String) (files : List RecordedAttachment) (step : StepState)
    → (with_files input_id files step).notes ≡ step.notes
with_files-notes input_id [] step = refl
with_files-notes input_id (f ∷ fs) step = refl

StepMove-notes : {step step' : StepState} → StepMove step step' → step'.notes ≡ step.notes
StepMove-notes (StepMove.skips _ _ _) = refl
StepMove-notes (StepMove.toggles _ _ _ _ _) = refl
StepMove-notes (StepMove.records _ _ _ _ _) = refl
StepMove-notes (StepMove.clears _ _ _) = refl
StepMove-notes {step} (StepMove.attaches at i rs _ _ _ _ _) = with_files-notes i _ step
StepMove-notes {step} (StepMove.detaches i path index _) = with_files-notes i _ step
StepMove-notes (StepMove.detaches_all _ _) = refl

-- A step written with the notes that it had.
same_notes :
    (id k : String) (step step' : StepState) (s : ExecutionState)
    → get k s.steps ≡ some step
    → step'.notes ≡ step.notes
    → notes_in id s ≤ 1
    → notes_with id s.global_notes + step_notes_with id (insert k step' s.steps) ≤ 1
same_notes id k step step' s found same h =
    omega (arith, h, step_notes-insert id k step step' s.steps found, ap (notes_with id) same)

-- A note whose ID was free.
one_more :
    (id : String) (note : RecordedNote) (s : ExecutionState)
    → note_exists note.id s ≡ false
    → notes_in id s ≤ 1
    → notes_in id s + notes_with id (note ∷ []) ≤ 1
one_more id note s fresh h =
    ground
      (arith, eq_iff note.id id, note_exists-notes_in note.id s fresh, note_exists-notes_in id s)

Transition-HasUniqueNotes :
    (event : Event) (s s' : ExecutionState)
    → Transition s s'
    → IsSoundState s
    → HasUniqueNotes s
    → HasUniqueNotes (counted event s')
Transition-HasUniqueNotes event s _ (Transition.starts _ _ _ _ _ _) _ h = h
Transition-HasUniqueNotes event s _ (Transition.finishes _ _ _) _ h = h
Transition-HasUniqueNotes event s _ (Transition.reopens _ _) _ h = h
Transition-HasUniqueNotes event s _ (Transition.renames _ _ _) _ h = h
Transition-HasUniqueNotes event s _ (Transition.adds_step k heading content after place _ fresh _) _
      h =
    λ id. omega (arith, h id, step_notes-insert_new id k (new_step k heading content) s.steps fresh)
Transition-HasUniqueNotes event s _ (Transition.unskips k step _ found _) _ h =
    λ id. same_notes id k step _ s found refl (h id)
Transition-HasUniqueNotes event s _ (Transition.moves k step step' _ found _ move) _ h =
    λ id. same_notes id k step step' s found (StepMove-notes move) (h id)
Transition-HasUniqueNotes event s _ (Transition.adds_note note _ fresh) _ h = λ id.
    omega (arith, one_more id note s fresh (h id), notes_with-append id s.global_notes (note ∷ []))
Transition-HasUniqueNotes event s _ (Transition.adds_step_note k step note _ found _ fresh) _ h =
    λ id. omega (
      arith,
      one_more id note s fresh (h id),
      notes_with-append id step.notes (note ∷ []),
      step_notes-insert id k step (record step { notes = step.notes ++ note ∷ [] }) s.steps found,
    )
Transition-HasUniqueNotes event s _ (Transition.removes_note note notes _ left) _ h =
    λ id. omega (arith, h id, notes_with-without_note id note s.global_notes notes left)
Transition-HasUniqueNotes event s _ (Transition.removes_step_note note steps _ left) _ h =
    λ id. omega (arith, h id, step_notes-without_step_note id note s.steps steps left)
Transition-HasUniqueNotes event s _ (Transition.receives _ _ _ _ _) _ h = h
Transition-HasUniqueNotes event s _ (Transition.assigns _ _ _ k step step' _ _ _ found _ move) _ h =
    λ id. same_notes id k step step' s found (StepMove-notes move) (h id)
Transition-HasUniqueNotes event s _ (Transition.unassigns _ _ k step step' _ _ found _ move) _ h =
    λ id. same_notes id k step step' s found (StepMove-notes move) (h id)

-- In every state that a log replays to, no two notes of the execution have the same ID, whether they
-- are global or stand on steps.
pub from_events-HasUniqueNotes :
    (events : List Event) (s : ExecutionState) → from_events events ≡ ok s → HasUniqueNotes s
unfolding from_events new
from_events-HasUniqueNotes events s h =
    (replay_invariant HasUniqueNotes Transition-HasUniqueNotes events new s new-IsSoundState
      (λ id. omega arith) h).1
