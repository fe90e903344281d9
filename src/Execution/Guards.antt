-- ===== src/Execution/Guards.antt =====
-- crates/procnote-core/src/execution/engine.rs: the guards of `apply`, and access to a step.
use procnote.Prelude.{String, Result, ok, err, ok_or, lift, ◌>>=◌, get, insert}
use procnote.Execution.State.{
  ExecutionError, ExecutionStatus, pending, active, finished, StepStatus, present, skipped,
  StepState, Action, StepAction,
}

unfoldable pub active_result : ExecutionStatus → Result ExecutionError (Unit {0})
active_result pending = err ExecutionError.not_started
active_result active = ok tt
active_result (finished _) = err ExecutionError.already_finished

unfoldable pub require_active : Action (Unit {0})
unfolding active_result
require_active s = (active_result s.status, s)

unfoldable pub finished_result : ExecutionStatus → Result ExecutionError (Unit {0})
finished_result pending = err ExecutionError.not_started
finished_result active = err ExecutionError.not_finished
finished_result (finished _) = ok tt

unfoldable pub require_finished : Action (Unit {0})
unfolding finished_result
require_finished s = (finished_result s.status, s)

-- The reference that Rust hands out is read here, and written through by `on_step`.
unfoldable pub get_step_mut : String → Action StepState
get_step_mut step_id s = (ok_or (get step_id s.steps) (ExecutionError.step_not_found step_id), s)

unfoldable pub present_result : String → StepState → StepStatus → Result ExecutionError StepState
present_result step_id step present = ok step
present_result step_id step (skipped _ _) = err (ExecutionError.step_already_skipped step_id)

unfoldable pub get_present_step_mut : String → Action StepState
unfolding get_step_mut present_result
get_present_step_mut step_id = do
  step ← get_step_mut step_id
  lift (present_result step_id step step.status)

-- Run a method on the step that `step_id` names, and write the step back.
unfoldable pub on_step : {A : Type 0} → String → StepState → StepAction A → Action A
on_step step_id step m s =
    let (r, step') = m step in (r, record s { steps = insert step_id step' s.steps })

-- `get_present_step_mut`, and a method run on the step that it gives.
unfoldable pub on_present_step : {A : Type 0} → String → StepAction A → Action A
unfolding get_present_step_mut on_step
on_present_step step_id m = do step ← get_present_step_mut step_id; on_step step_id step m
