-- ===== src/Store/Directory/Replayed.antt =====
-- crates/procnote-core/src/execution/engine.rs: lemmas on logs that are read in parts.
use procnote.Prelude.{
  ◌≡◌, refl, inl, inr, List, [], ◌∷◌, ◌++◌, arith, Result, ok, err, continue, Result-cases,
}
use procnote.Event.{Event}
use procnote.Execution.State.{ExecutionError, ExecutionState}
use procnote.Execution.Apply.{apply, replay_event, replay}
use procnote.Execution.Actions.Checked.{accepted-replays}
use procnote.App.Repository.{message, messages, apply_events}

pub replay-append :
    (s t : ExecutionState) (events more : List Event)
    → replay s events ≡ ok t
    → replay s (events ++ more) ≡ replay t more
unfolding replay
replay-append s t [] more h = let e : s ≡ t = ground arith in rw e refl
replay-append s t (event ∷ events) more h = elim (Result-cases (replay_event s event)) [
  | inl (e, refused) ↦ cc (rw (refused, replay) at h)
  | inr (s', replayed) ↦
      rw (replayed, replay) (replay-append s' t events more (rw (replayed, replay) at h))
]

-- The events of an accepted decision replay to the state that it leaves.
pub apply_events-replays :
    (s : ExecutionState) (events : List Event)
    → (apply_events events s).0 ≡ ok tt
    → replay s events ≡ ok (apply_events events s).1
unfolding apply_events replay messages message
apply_events-replays s [] h = refl
apply_events-replays s (event ∷ events) h =
    next (apply event s).0 refl h (apply_events-replays (apply event s).1 events)
  where
    next :
        (r : Result ExecutionError (Unit {0}))
        → (apply event s).0 ≡ r
        → (continue (message r) (λ _. apply_events events) (apply event s).1).0 ≡ ok tt
        → ((apply_events events (apply event s).1).0 ≡ ok tt
            → replay (apply event s).1 events ≡ ok (apply_events events (apply event s).1).1)
        → replay s (event ∷ events)
          ≡ ok (continue (message r) (λ _. apply_events events) (apply event s).1).1
    next (ok _) e h rest = rw (accepted-replays event s e, replay) (rest h)
    next (err x) e h rest = cc
