-- ===== src/Execution/Transition/Soundness.antt =====
-- crates/procnote-core/src/execution/engine.rs: lemmas on `Transition` and `IsSoundState`.
use procnote.Prelude.{
  String, false, ◌≡◌, ◌≢◌, refl, subst, ◌∙◌, inl, inr, some, List, [], ◌∷◌, ◌++◌, arith, get,
  insert, AllEntries, AllEntries-get, AllEntries-insert, Option-cases, Keyed,
}
use procnote.Execution.State.{
  present, RecordedNote, RecordedAttachment, StepState, ExecutionState, from_record_at,
}
use procnote.Execution.Steps.{has_captured_data}
use procnote.Execution.NoteEvents.{without_note, without_step_note}
use procnote.Execution.Sound.{IsSafeFile, IsSound, IsSoundState}
use procnote.Execution.Relation.{StepMove, with_files}
use procnote.Execution.Transition.{Transition, new_step}
use procnote.Execution.Sound.Preserved.{StepMove-IsSound, All-append, All-erase_idx, not_skipped}

with_files-id :
    (input_id : String) (files : List RecordedAttachment) (step : StepState)
    → (with_files input_id files step).id ≡ step.id
with_files-id input_id [] step = refl
with_files-id input_id (f ∷ fs) step = refl

StepMove-id : {step step' : StepState} → StepMove step step' → step'.id ≡ step.id
StepMove-id (StepMove.skips _ _ _) = refl
StepMove-id (StepMove.toggles _ _ _ _ _) = refl
StepMove-id (StepMove.records _ _ _ _ _) = refl
StepMove-id (StepMove.clears _ _ _) = refl
StepMove-id {step} (StepMove.attaches at i rs _ _ _ _ _) = with_files-id i _ step
StepMove-id {step} (StepMove.detaches i path index _) = with_files-id i _ step
StepMove-id (StepMove.detaches_all _ _) = refl

moved :
    (step_id : String) (step step' : StepState) (s : ExecutionState)
    → IsSoundState s
    → get step_id s.steps ≡ some step
    → step.status ≡ present
    → StepMove step step'
    → AllEntries (λ k t. (t.id ≡ k) × IsSound t) (insert step_id step' s.steps)
moved step_id step step' s h found here move =
    let (id, sound) = AllEntries-get _ step_id step s.steps h.steps found in
    AllEntries-insert _ step_id step' s.steps h.steps
      (StepMove-id move ∙ id, StepMove-IsSound move here sound)

notes_captured : (step : StepState) → has_captured_data step ≡ false → step.notes ≡ []
unfolding has_captured_data
notes_captured step h = ground arith

-- A skipped step has no notes to lose.
with_notes-IsSound :
    (step : StepState) (notes : List RecordedNote)
    → step.notes ≢ []
    → IsSound step
    → IsSound (record step { notes = notes })
with_notes-IsSound step notes some_notes h = record {
  attachments = h.attachments;
  inputs = h.inputs;
  skipped_empty = λ sk. absurd (some_notes (notes_captured step (h.skipped_empty sk)));
}

without_note-some :
    (note_id : String) (notes : List RecordedNote) {left : List RecordedNote}
    → without_note note_id notes ≡ some left
    → notes ≢ []
unfolding without_note
without_note-some note_id [] h e = cc
without_note-some note_id (n ∷ notes) h e = cc

without_step_note-AllEntries :
    (note_id : String) (steps left : Keyed StepState)
    → without_step_note note_id steps ≡ some left
    → AllEntries (λ k t. (t.id ≡ k) × IsSound t) steps
    → AllEntries (λ k t. (t.id ≡ k) × IsSound t) left
unfolding without_step_note
without_step_note-AllEntries note_id [] left e h = cc
without_step_note-AllEntries note_id ((k, step) ∷ steps) left e h =
    elim (Option-cases (without_note note_id step.notes)) [
      | inr (notes, found) ↦
          let q : (k, record step { notes = notes }) ∷ steps ≡ left = ground arith in
          subst (AllEntries (λ k t. (t.id ≡ k) × IsSound t)) q (
            (
              h.0.0,
              with_notes-IsSound step notes (without_note-some note_id step.notes found) h.0.1,
            ),
            h.1,
          )
      | inl absent ↦ elim (Option-cases (without_step_note note_id steps)) [
        | inr (rest, found) ↦
            let q : (k, step) ∷ rest ≡ left = ground arith in
            subst (AllEntries (λ k t. (t.id ≡ k) × IsSound t)) q
              (h.0, without_step_note-AllEntries note_id steps rest found h.1)
        | inl missing ↦ ground arith
      ]
    ]

-- Every transition leaves a sound state.
pub Transition-IsSoundState :
    {s s' : ExecutionState} → Transition s s' → IsSoundState s → IsSoundState s'
unfolding from_record_at
Transition-IsSoundState (Transition.starts _ _ _ _ _ _) h = record {
  steps = h.steps;
  inbox = h.inbox;
}
Transition-IsSoundState (Transition.finishes _ _ _) h = record { steps = h.steps; inbox = h.inbox }
Transition-IsSoundState (Transition.reopens _ _) h = record { steps = h.steps; inbox = h.inbox }
Transition-IsSoundState (Transition.renames _ _ _) h = record { steps = h.steps; inbox = h.inbox }
Transition-IsSoundState {s} (Transition.adds_step k heading content after place run fresh at) h =
    record {
      steps =
          AllEntries-insert _ k (new_step k heading content) s.steps h.steps
            (refl, record { attachments = tt; inputs = tt; skipped_empty = λ sk. cc });
      inbox = h.inbox;
    }
Transition-IsSoundState {s} (Transition.unskips k step run found was) h =
    let (id, sound) = AllEntries-get _ k step s.steps h.steps found in
    record {
      steps =
          AllEntries-insert _ k (record step { status = present }) s.steps h.steps
            (
              id,
              record {
                attachments = sound.attachments;
                inputs = sound.inputs;
                skipped_empty = λ sk. cc;
              },
            );
      inbox = h.inbox;
    }
Transition-IsSoundState {s} (Transition.moves k step step' run found here move) h = record {
  steps = moved k step step' s h found here move;
  inbox = h.inbox;
}
Transition-IsSoundState (Transition.adds_note _ _ _) h = record { steps = h.steps; inbox = h.inbox }
Transition-IsSoundState {s} (Transition.adds_step_note k step note run found here fresh) h =
    let (id, sound) = AllEntries-get _ k step s.steps h.steps found in
    record {
      steps =
          AllEntries-insert _ k (record step { notes = step.notes ++ note ∷ [] }) s.steps h.steps
            (
              id,
              record {
                attachments = sound.attachments;
                inputs = sound.inputs;
                skipped_empty = λ sk. absurd (not_skipped step.status here sk);
              },
            );
      inbox = h.inbox;
    }
Transition-IsSoundState (Transition.removes_note _ _ _ _) h = record {
  steps = h.steps;
  inbox = h.inbox;
}
Transition-IsSoundState {s} (Transition.removes_step_note note steps run left) h = record {
  steps = without_step_note-AllEntries note s.steps steps left h.steps;
  inbox = h.inbox;
}
Transition-IsSoundState {s} (Transition.receives at a run safe fresh) h = record {
  steps = h.steps;
  inbox = All-append IsSafeFile s.inbox _ h.inbox (safe, tt);
}
Transition-IsSoundState {s}
      (Transition.assigns path i file k step step' run at there found here move) h =
    record {
      steps = moved k step step' s h found here move;
      inbox = All-erase_idx IsSafeFile s.inbox i h.inbox;
    }
Transition-IsSoundState {s} (Transition.unassigns at file k step step' run safe found here move) h =
    record {
      steps = moved k step step' s h found here move;
      inbox = All-append IsSafeFile s.inbox _ h.inbox (safe, tt);
    }
