-- ===== src/Execution/Invariants/Order.antt =====
-- crates/procnote-core/src/execution/engine.rs: `step_order` against `steps`, as an invariant.
use procnote.Prelude.{
  ℕ, ◌+◌, String, ◌==◌, eq_iff, ◌≡◌, refl, sym, ap, ◌∙◌, inl, inr, Option, none, some, List, [],
  ◌∷◌, arith, ok, get, insert, get-insert, contains_key, occurrences, one_if, occurrences-append,
  occurrences-insert_idx, Keyed, Option-cases,
}
use procnote.Event.{Event}
use procnote.Execution.State.{ExecutionState, StepState, new}
use procnote.Execution.StepEvents.{insert_or_push}
use procnote.Execution.NoteEvents.{without_note, without_step_note}
use procnote.Execution.Apply.{from_events}
use procnote.Execution.Sound.{IsSoundState}
use procnote.Execution.Transition.{Transition, new_step}
use procnote.Execution.Replay.{counted, replay_invariant, new-IsSoundState}

abbrev pub IsOrdered : ExecutionState → Type 0
IsOrdered s = (id : String) → occurrences id s.step_order ≡ one_if (contains_key id s.steps)

occurrences-insert_or_push :
    (id a : String) (xs : List String) (place : Option ℕ)
    → occurrences id (insert_or_push place a xs) ≡ occurrences id xs + one_if (a == id)
unfolding insert_or_push
occurrences-insert_or_push id a xs none = ground (arith, occurrences-append id xs (a ∷ []))
occurrences-insert_or_push id a xs (some i) = occurrences-insert_idx id a xs i

-- Writing a step that is there leaves the keys.
contains_key-write :
    (id k : String) (step step' : StepState) (m : Keyed StepState)
    → get k m ≡ some step
    → contains_key id (insert k step' m) ≡ contains_key id m
contains_key-write id k step step' m found =
    ground (arith, get-insert k id step' m, eq_iff k id, found)

contains_key-without_step_note :
    (id note_id : String) (m left : Keyed StepState)
    → without_step_note note_id m ≡ some left
    → contains_key id left ≡ contains_key id m
unfolding without_step_note get
contains_key-without_step_note id note_id [] left h = cc
contains_key-without_step_note id note_id ((k, step) ∷ m) left h =
    elim (Option-cases (without_note note_id step.notes)) [
      | inr (notes, found) ↦ ground (arith, found)
      | inl absent ↦ elim (Option-cases (without_step_note note_id m)) [
        | inr (rest, found) ↦
            ground (arith, absent, found, contains_key-without_step_note id note_id m rest found)
        | inl missing ↦ ground arith
      ]
    ]

Transition-IsOrdered :
    (event : Event) (s s' : ExecutionState)
    → Transition s s'
    → IsSoundState s
    → IsOrdered s
    → IsOrdered (counted event s')
Transition-IsOrdered event s _ (Transition.starts _ _ _ _ _ _) _ h = h
Transition-IsOrdered event s _ (Transition.finishes _ _ _) _ h = h
Transition-IsOrdered event s _ (Transition.reopens _ _) _ h = h
Transition-IsOrdered event s _ (Transition.renames _ _ _) _ h = h
Transition-IsOrdered event s _ (Transition.adds_step k heading content after place run fresh at) _
      h =
    λ id. ground (
      arith,
      h id,
      occurrences-insert_or_push id k s.step_order place,
      get-insert k id (new_step k heading content) s.steps,
      eq_iff k id,
    )
Transition-IsOrdered event s _ (Transition.unskips k step _ found _) _ h =
    λ id. h id ∙ ap one_if (sym (contains_key-write id k step _ s.steps found))
Transition-IsOrdered event s _ (Transition.moves k step _ _ found _ _) _ h =
    λ id. h id ∙ ap one_if (sym (contains_key-write id k step _ s.steps found))
Transition-IsOrdered event s _ (Transition.adds_note _ _ _) _ h = h
Transition-IsOrdered event s _ (Transition.adds_step_note k step _ _ found _ _) _ h =
    λ id. h id ∙ ap one_if (sym (contains_key-write id k step _ s.steps found))
Transition-IsOrdered event s _ (Transition.removes_note _ _ _ _) _ h = h
Transition-IsOrdered event s _ (Transition.removes_step_note note steps _ left) _ h =
    λ id. h id ∙ ap one_if (sym (contains_key-without_step_note id note s.steps steps left))
Transition-IsOrdered event s _ (Transition.receives _ _ _ _ _) _ h = h
Transition-IsOrdered event s _ (Transition.assigns _ _ _ k step _ _ _ _ found _ _) _ h =
    λ id. h id ∙ ap one_if (sym (contains_key-write id k step _ s.steps found))
Transition-IsOrdered event s _ (Transition.unassigns _ _ k step _ _ _ found _ _) _ h =
    λ id. h id ∙ ap one_if (sym (contains_key-write id k step _ s.steps found))

-- In every state that a log replays to, `step_order` holds the ID of each step exactly once, and no
-- other ID.
pub from_events-IsOrdered :
    (events : List Event) (s : ExecutionState) → from_events events ≡ ok s → IsOrdered s
unfolding from_events new get
from_events-IsOrdered events s h =
    (replay_invariant IsOrdered Transition-IsOrdered events new s new-IsSoundState (λ id. refl) h).1
