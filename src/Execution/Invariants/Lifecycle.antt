-- ===== src/Execution/Invariants/Lifecycle.antt =====
-- crates/procnote-core/src/execution/engine.rs: the status and the fields that follow it, as an invariant.
use procnote.Prelude.{String, true, ◌≡◌, refl, sym, ap, subst, none, some, List, ok, is_some}
use procnote.Event.{Event, ExecutionId}
use procnote.Execution.State.{ExecutionState, ExecutionStatus, pending, active, finished, new}
use procnote.Execution.Apply.{from_events}
use procnote.Execution.Sound.{IsSoundState}
use procnote.Execution.Transition.{Transition}
use procnote.Execution.Replay.{counted, replay_invariant, new-IsSoundState}

-- What the fields of an execution say at each status.
abbrev pub FitsStatus : ExecutionStatus → ExecutionState → Type 0
FitsStatus pending s = s ≡ new
FitsStatus active s =
    (is_some s.execution_id ≡ true) × (is_some s.started_at ≡ true) × (s.finished_at ≡ none)
FitsStatus (finished _) s =
    (is_some s.execution_id ≡ true) × (is_some s.started_at ≡ true) × (is_some s.finished_at ≡ true)

at_status :
    (s : ExecutionState) (status : ExecutionStatus)
    → s.status ≡ status
    → FitsStatus s.status s
    → FitsStatus status s
at_status s status e h = subst (λ x. FitsStatus x s) e h

-- A move of a running execution that keeps the four fields.
kept :
    (event : Event) (s s' : ExecutionState)
    → s.status ≡ active
    → (FitsStatus active s → FitsStatus active (counted event s'))
    → FitsStatus s.status s
    → FitsStatus s.status (counted event s')
kept event s s' run same h =
    subst (λ x. FitsStatus x (counted event s')) (sym run) (same (at_status s active run h))

renamed :
    (event : Event) (s : ExecutionState) (name : String) (id : ExecutionId)
    (status : ExecutionStatus)
    → s.execution_id ≡ some id
    → FitsStatus status s
    → FitsStatus status (counted event (record s { name = some name }))
unfolding new
renamed event s name id pending e h = cc (ap (λ (x : ExecutionState). x.execution_id) h, e)
renamed event s name id active e h = h
renamed event s name id (finished c) e h = h

Transition-FitsStatus :
    (event : Event) (s s' : ExecutionState)
    → Transition s s'
    → IsSoundState s
    → FitsStatus s.status s
    → FitsStatus s'.status (counted event s')
Transition-FitsStatus event s _ (Transition.starts _ _ _ _ _ _) _ h = (refl, refl, refl)
Transition-FitsStatus event s _ (Transition.finishes _ _ run) _ h =
    let (id, started, _) = at_status s active run h in (id, started, refl)
Transition-FitsStatus event s _ (Transition.reopens c was) _ h =
    let (id, started, _) = at_status s (finished c) was h in (id, started, refl)
Transition-FitsStatus event s _ (Transition.renames name id e) _ h =
    renamed event s name id s.status e h
Transition-FitsStatus event s s' (Transition.adds_step _ _ _ _ _ run _ _) _ h =
    kept event s s' run (λ x. x) h
Transition-FitsStatus event s s' (Transition.unskips _ _ run _ _) _ h =
    kept event s s' run (λ x. x) h
Transition-FitsStatus event s s' (Transition.moves _ _ _ run _ _ _) _ h =
    kept event s s' run (λ x. x) h
Transition-FitsStatus event s s' (Transition.adds_note _ run _) _ h = kept event s s' run (λ x. x) h
Transition-FitsStatus event s s' (Transition.adds_step_note _ _ _ run _ _ _) _ h =
    kept event s s' run (λ x. x) h
Transition-FitsStatus event s s' (Transition.removes_note _ _ run _) _ h =
    kept event s s' run (λ x. x) h
Transition-FitsStatus event s s' (Transition.removes_step_note _ _ run _) _ h =
    kept event s s' run (λ x. x) h
Transition-FitsStatus event s s' (Transition.receives _ _ run _ _) _ h =
    kept event s s' run (λ x. x) h
Transition-FitsStatus event s s' (Transition.assigns _ _ _ _ _ _ run _ _ _ _ _) _ h =
    kept event s s' run (λ x. x) h
Transition-FitsStatus event s s' (Transition.unassigns _ _ _ _ _ run _ _ _ _) _ h =
    kept event s s' run (λ x. x) h

-- In every state that a log replays to, the fields fit the status: a pending execution is the new
-- one, with nothing in it; an active one has an ID and a start and no end; a finished one has an ID,
-- a start and an end.
pub from_events-FitsStatus :
    (events : List Event) (s : ExecutionState) → from_events events ≡ ok s → FitsStatus s.status s
unfolding from_events new
from_events-FitsStatus events s h =
    (replay_invariant (λ t. FitsStatus t.status t) Transition-FitsStatus events new s
      new-IsSoundState refl h).1
