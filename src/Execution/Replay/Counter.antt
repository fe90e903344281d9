-- ===== src/Execution/Replay/Counter.antt =====
-- crates/procnote-core/src/execution/engine.rs: lemmas on `applied_events` and `updated_at`.
use procnote.Prelude.{
  ℕ, ◌+◌, ◌%◌, ◌^◌, ◌<◌, ◌≡◌, refl, sym, subst, ◌∙◌, inl, inr, List, [], ◌∷◌, arith, ok,
  Result-cases, continue,
}
use procnote.Event.{
  Timestamp, Event, execution_started, execution_completed, execution_aborted, execution_reopened,
  step_added, step_skipped, step_unskipped, checkbox_toggled, input_recorded, input_cleared,
  note_added, note_removed, attachment_added, attachments_added, attachment_file_removed,
  attachments_cleared, attachment_removed, attachment_received, attachment_assigned,
  attachment_unassigned, execution_renamed, log_meta,
}
use procnote.Prelude.{Result, Option, err, none, some, ap}
use procnote.Execution.State.{ExecutionError, ExecutionState, new}
use procnote.Execution.Apply.{
  apply, apply_event, count_event, replay_event, replay, from_events, transition_event_at,
}
use procnote.Execution.Sound.{IsSoundState}
use procnote.Execution.Transition.{Transition}
use procnote.Execution.Transition.Soundness.{Transition-IsSoundState}
use procnote.Execution.Replay.{apply-ok, counted-IsSoundState, replayed_cases, new-IsSoundState}

-- No transition counts by itself.
Transition-applied_events :
    {s s' : ExecutionState} → Transition s s' → s'.applied_events ≡ s.applied_events
Transition-applied_events (Transition.starts _ _ _ _ _ _) = refl
Transition-applied_events (Transition.finishes _ _ _) = refl
Transition-applied_events (Transition.reopens _ _) = refl
Transition-applied_events (Transition.renames _ _ _) = refl
Transition-applied_events (Transition.adds_step _ _ _ _ _ _ _ _) = refl
Transition-applied_events (Transition.unskips _ _ _ _ _) = refl
Transition-applied_events (Transition.moves _ _ _ _ _ _ _) = refl
Transition-applied_events (Transition.adds_note _ _ _) = refl
Transition-applied_events (Transition.adds_step_note _ _ _ _ _ _ _) = refl
Transition-applied_events (Transition.removes_note _ _ _ _) = refl
Transition-applied_events (Transition.removes_step_note _ _ _ _) = refl
Transition-applied_events (Transition.receives _ _ _ _ _) = refl
Transition-applied_events (Transition.assigns _ _ _ _ _ _ _ _ _ _ _ _) = refl
Transition-applied_events (Transition.unassigns _ _ _ _ _ _ _ _ _ _) = refl

-- The transitions of a log: all events but the metadata.
abbrev pub transitions : List Event → ℕ
transitions [] = 0
transitions (log_meta _ _ _ ∷ events) = transitions events
transitions (_ ∷ events) = transitions events + 1

-- What one replayed event leaves: a sound state, and one more in the count if it is a transition.
record Counts (event : Event) (events : List Event) (s t : ExecutionState) : Type 0 where
  sound : IsSoundState t
  small : t.applied_events < 2 ^ 64
  count :
      (t.applied_events + transitions events) % 2 ^ 64
      ≡ (s.applied_events + transitions (event ∷ events)) % 2 ^ 64

counted_mod : (a b n : ℕ) → b ≡ a → ((b + 1) % 2 ^ 64 + n) % 2 ^ 64 ≡ (a + (n + 1)) % 2 ^ 64
counted_mod a b n h = omega arith

replay_event-Counts :
    (event : Event) (events : List Event) (s t : ExecutionState)
    → IsSoundState s
    → replay_event s event ≡ ok t
    → s.applied_events < 2 ^ 64
    → Counts event events s t
unfolding replay_event
replay_event-Counts (log_meta at v tool) events s t h e small =
    let q : s ≡ t = ground arith in
    subst (Counts (log_meta at v tool) events s) q
      (record { sound = h; small = small; count = refl })
replay_event-Counts event events s t h e small =
    let (accepted, after) = replayed_cases (apply event s).0 (apply event s).1 t e in
    let (s', move, q) = apply-ok event s h accepted in
    subst (Counts event events s) (sym q ∙ after) (record {
      sound = counted-IsSoundState event s' (Transition-IsSoundState move h);
      small = omega arith;
      count =
          counted_mod s.applied_events s'.applied_events (transitions events)
            (Transition-applied_events move);
    })

replay-applied_events :
    (events : List Event) (s t : ExecutionState)
    → IsSoundState s
    → s.applied_events < 2 ^ 64
    → replay s events ≡ ok t
    → t.applied_events ≡ (s.applied_events + transitions events) % 2 ^ 64
unfolding replay
replay-applied_events [] s t h small e =
    let q : s ≡ t = ground arith in
    subst (λ (x : ExecutionState). x.applied_events ≡ (s.applied_events + 0) % 2 ^ 64) q
      (omega arith)
replay-applied_events (event ∷ events) s t h small e = elim (Result-cases (replay_event s event)) [
  | inl (x, refused) ↦ cc (rw (refused, replay) at e)
  | inr (s', replayed) ↦
      let one = replay_event-Counts event events s s' h replayed small in
      replay-applied_events events s' t one.sound one.small (rw (replayed, replay) at e) ∙ one.count
]

-- Every state that a log replays to counts the log's transitions, which are all its events but the
-- metadata, modulo 2^64.
pub from_events-applied_events :
    (events : List Event) (s : ExecutionState)
    → from_events events ≡ ok s
    → s.applied_events ≡ transitions events % 2 ^ 64
unfolding from_events new
from_events-applied_events events s h =
    omega (arith, replay-applied_events events new s new-IsSoundState (omega arith) h)

-- The field `at` of an event.
abbrev pub at_of : Event → Timestamp
at_of (execution_started at _ _ _ _) = at
at_of (execution_completed at _ _) = at
at_of (execution_aborted at _ _) = at
at_of (execution_reopened at _ _) = at
at_of (step_added at _ _ _ _ _) = at
at_of (step_skipped at _ _ _) = at
at_of (step_unskipped at _ _ _) = at
at_of (checkbox_toggled at _ _ _ _) = at
at_of (input_recorded at _ _ _ _ _) = at
at_of (input_cleared at _ _ _ _) = at
at_of (note_added at _ _ _ _) = at
at_of (note_removed at _ _ _) = at
at_of (attachment_added at _ _ _ _ _ _ _) = at
at_of (attachments_added at _ _ _ _) = at
at_of (attachment_file_removed at _ _ _ _) = at
at_of (attachments_cleared at _ _ _) = at
at_of (attachment_removed at _ _ _ _) = at
at_of (attachment_received at _ _) = at
at_of (attachment_assigned at _ _ _ _) = at
at_of (attachment_unassigned at _ _ _ _) = at
at_of (execution_renamed at _ _) = at
at_of (log_meta at _ _) = at

-- The time of the last event that is not metadata, or the given one where there is none.
abbrev pub last_time : Option Timestamp → List Event → Option Timestamp
last_time known [] = known
last_time known (log_meta _ _ _ ∷ events) = last_time known events
last_time known (event ∷ events) = last_time (some (at_of event)) events

stamped :
    (event : Event) (r : Result ExecutionError (Unit {0})) (t : ExecutionState)
    → (continue r (λ _. count_event event) t).0 ≡ ok tt
    → (continue r (λ _. count_event event) t).1.updated_at ≡ transition_event_at event
unfolding count_event
stamped event (ok _) t h = refl
stamped event (err x) t h = cc

apply-updated_at :
    (event : Event) (s : ExecutionState)
    → (apply event s).0 ≡ ok tt
    → (apply event s).1.updated_at ≡ transition_event_at event
unfolding apply
apply-updated_at event s h = stamped event (apply_event event s).0 (apply_event event s).1 h

replay_event-updated_at :
    (event : Event) (s t : ExecutionState)
    → replay_event s event ≡ ok t
    → t.updated_at ≡ last_time s.updated_at (event ∷ [])
unfolding replay_event transition_event_at
replay_event-updated_at (log_meta at v tool) s t e =
    let q : s ≡ t = ground arith in ap (λ (x : ExecutionState). x.updated_at) (sym q)
replay_event-updated_at event s t e =
    let (accepted, after) = replayed_cases (apply event s).0 (apply event s).1 t e in
    ap (λ (x : ExecutionState). x.updated_at) (sym after) ∙ apply-updated_at event s accepted

last_time-cons :
    (event : Event) (events : List Event) (known : Option Timestamp)
    → last_time known (event ∷ events) ≡ last_time (last_time known (event ∷ [])) events
last_time-cons (log_meta at v tool) events known = refl
last_time-cons event events known = refl

replay-updated_at :
    (events : List Event) (s t : ExecutionState)
    → replay s events ≡ ok t
    → t.updated_at ≡ last_time s.updated_at events
unfolding replay
replay-updated_at [] s t e =
    let q : s ≡ t = ground arith in ap (λ (x : ExecutionState). x.updated_at) (sym q)
replay-updated_at (event ∷ events) s t e = elim (Result-cases (replay_event s event)) [
  | inl (x, refused) ↦ cc (rw (refused, replay) at e)
  | inr (s', replayed) ↦
      replay-updated_at events s' t (rw (replayed, replay) at e)
      ∙ ap (λ k. last_time k events) (replay_event-updated_at event s s' replayed)
      ∙ sym (last_time-cons event events s.updated_at)
]

-- A replayed state was last updated at the time that the log's last event other than metadata carries,
-- and never where the log has none.
pub from_events-updated_at :
    (events : List Event) (s : ExecutionState)
    → from_events events ≡ ok s
    → s.updated_at ≡ last_time none events
unfolding from_events new
from_events-updated_at events s h = replay-updated_at events new s h
