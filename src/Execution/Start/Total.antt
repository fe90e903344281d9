-- ===== src/Execution/Start/Total.antt =====
-- crates/procnote-core/src/execution/engine.rs: lemmas on `start`.
use procnote.Prelude.{ℕ, ◌+◌, String, ◌≡◌, some, List, [], ◌∷◌, ◌++◌, Result, ok, get}
use procnote.Template.{Step}
use procnote.Event.{Event}
use procnote.Execution.State.{ExecutionState, StepState, ExecutionError, active}
use procnote.Execution.Apply.{replay}
use procnote.Execution.Start.Assigned.{HasSteps}
use procnote.Execution.Start.Adds.{heading_of, Adds}
use procnote.Execution.Start.{template_step_id}

-- The IDs of a template's steps, from an index on.
abbrev pub step_ids : ℕ → List Step → List String
step_ids i [] = []
step_ids i (step ∷ steps) = template_step_id i ∷ step_ids (i + 1) steps

-- The events of a start replay to the state that it leaves, which has the template's steps from an
-- index on and keeps those that were there.
record Begun (s : ExecutionState) (r : Result ExecutionError (List Event) × ExecutionState) (i : ℕ)
    (steps : List Step) : Type 0 where
  events : List Event
  after : ExecutionState
  result : r ≡ (ok events, after)
  replays : replay s events ≡ ok after
  runs : after.status ≡ active
  order : after.step_order ≡ s.step_order ++ step_ids i steps
  headed : heading_of after ≡ heading_of s
  kept : (k : String) (step : StepState) → get k s.steps ≡ some step → get k after.steps ≡ some step
  has : HasSteps after.steps i steps
