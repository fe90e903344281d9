-- ===== src/Execution/Replay.antt =====
-- crates/procnote-core/src/execution/engine.rs: lemmas on `apply` and `from_events` as wholes.
pub mod Counter
use procnote.Prelude.{
  ◌+◌, ◌%◌, ◌^◌, ◌≡◌, refl, sym, subst, ◌∙◌, ◌⊎◌, inl, inr, List, [], ◌∷◌, arith, Result, ok, err,
  continue, Result-cases,
}
use procnote.Event.{Event, log_meta}
use procnote.Execution.State.{ExecutionState, ExecutionError, new}
use procnote.Execution.Apply.{
  apply_event, count_event, apply, replay_event, replay, from_events, transition_event_at,
}
use procnote.Execution.Sound.{IsSoundState}
use procnote.Execution.Transition.{Transition, Outcome}
use procnote.Execution.Transition.Reach.{apply_event-Outcome}
use procnote.Execution.Transition.Soundness.{Transition-IsSoundState}

-- The state with an accepted event counted.
abbrev pub counted : Event → ExecutionState → ExecutionState
counted event s = record s {
  updated_at = transition_event_at event;
  applied_events = (s.applied_events + 1) % 2 ^ 64;
}

pub counted-IsSoundState :
    (event : Event) (s : ExecutionState) → IsSoundState s → IsSoundState (counted event s)
counted-IsSoundState event s h = record { steps = h.steps; inbox = h.inbox }

-- What `apply` leaves: a counted transition, or the state as it was.
abbrev pub Applied :
    Event → ExecutionState → Result ExecutionError (Unit {0}) → ExecutionState → Type 0
Applied event s (ok _) t = (s' : ExecutionState) × Transition s s' × (t ≡ counted event s')
Applied event s (err e) t = t ≡ s

continue-Applied :
    (event : Event) (s : ExecutionState) (r : Result ExecutionError (Unit {0}))
    (s' : ExecutionState)
    → Outcome s r s'
    → Applied event s
        (continue r (λ _. count_event event) s').0
        (continue r (λ _. count_event event) s').1
unfolding count_event
continue-Applied event s (ok _) s' move = (s', move, refl)
continue-Applied event s (err e) s' same = same

-- On a state whose steps are sound, `apply` makes the transitions of `Transition` and no other: an
-- accepted event leaves the state of such a transition, counted and with the event's time; a refused
-- one leaves the state as it was.
pub apply-Applied :
    (event : Event) (s : ExecutionState)
    → IsSoundState s
    → Applied event s (apply event s).0 (apply event s).1
unfolding apply
apply-Applied event s h =
    continue-Applied event s (apply_event event s).0 (apply_event event s).1
      (apply_event-Outcome event s h)

-- A refused event changes nothing: on a state whose steps are sound, where `apply` returns an error
-- the state behind it is the state before.
pub apply-error_unchanged :
    (event : Event) (s : ExecutionState) (e : ExecutionError)
    → IsSoundState s
    → (apply event s).0 ≡ err e
    → (apply event s).1 ≡ s
apply-error_unchanged event s e h refused =
    subst (λ r. Applied event s r (apply event s).1) refused (apply-Applied event s h)

pub apply-ok :
    (event : Event) (s : ExecutionState)
    → IsSoundState s
    → (apply event s).0 ≡ ok tt
    → (s' : ExecutionState) × Transition s s' × ((apply event s).1 ≡ counted event s')
apply-ok event s h accepted =
    subst (λ r. Applied event s r (apply event s).1) accepted (apply-Applied event s h)

pub replayed_cases :
    (r : Result ExecutionError (Unit {0})) (s' t : ExecutionState)
    → ◌≡◌ {A = Result ExecutionError ExecutionState}
        (elim r [ ok _ ↦ ok s' | err e ↦ err e ])
        (ok t)
    → (r ≡ ok tt) × (s' ≡ t)
replayed_cases (ok tt) s' t h = (refl, ground arith)
replayed_cases (err e) s' t h = cc

-- Metadata lines aside, a replayed event is one that `apply` accepts.
replay_event_cases :
    (event : Event) (s t : ExecutionState)
    → replay_event s event ≡ ok t
    → (t ≡ s) ⊎ (((apply event s).0 ≡ ok tt) × ((apply event s).1 ≡ t))
unfolding replay_event
replay_event_cases (log_meta _ _ _) s t h = inl (ground arith)
replay_event_cases event s t h = inr (replayed_cases (apply event s).0 (apply event s).1 t h)

-- An invariant of the transitions holds of whatever a log replays to.
module _ (P : ExecutionState → Type 0)
    (step : (event : Event) (s s' : ExecutionState)
      → Transition s s'
      → IsSoundState s
      → P s
      → P (counted event s')) where
  apply_keeps :
      (event : Event) (s t : ExecutionState)
      → IsSoundState s
      → P s
      → (apply event s).0 ≡ ok tt
      → (apply event s).1 ≡ t
      → IsSoundState t × P t
  apply_keeps event s t h p accepted e =
      let (s', move, q) = apply-ok event s h accepted in
      subst (λ x. IsSoundState x × P x) (sym q ∙ e)
        (counted-IsSoundState event s' (Transition-IsSoundState move h), step event s s' move h p)

  pub replay_invariant :
      (events : List Event) (s t : ExecutionState)
      → IsSoundState s
      → P s
      → replay s events ≡ ok t
      → IsSoundState t × P t
  unfolding replay
  replay_invariant [] s t h p e =
      let q : s ≡ t = ground arith in subst (λ x. IsSoundState x × P x) q (h, p)
  replay_invariant (event ∷ events) s t h p e = elim (Result-cases (replay_event s event)) [
    | inl (x, refused) ↦ cc (rw (refused, replay) at e)
    | inr (s', replayed) ↦
        let rest : replay s' events ≡ ok t = rw (replayed, replay) at e in
        elim (replay_event_cases event s s' replayed) [
          | inl same ↦
              replay_invariant events s' t (subst IsSoundState (sym same) h) (subst P (sym same) p)
                rest
          | inr (accepted, after) ↦
              let (h', p') = apply_keeps event s s' h p accepted after in
              replay_invariant events s' t h' p' rest
        ]
  ]

pub new-IsSoundState : IsSoundState new
unfolding new
new-IsSoundState = record { steps = tt; inbox = tt }

-- Every state that a log replays to is sound: each step stands under its own ID; each input with
-- files has at least one, with distinct and safe paths, and is defined as an attachment input of the
-- step; each recorded value is that of a scalar input defined in the step, under the defined label;
-- a skipped step has no captured data; and the paths in the inbox are safe.
pub from_events-IsSoundState :
    (events : List Event) (s : ExecutionState) → from_events events ≡ ok s → IsSoundState s
unfolding from_events
from_events-IsSoundState events s h =
    (replay_invariant (λ _. Unit {0}) (λ _ _ _ _ _ _. tt) events new s new-IsSoundState tt h).0
