-- ===== src/Execution/Undo/Skips.antt =====
-- crates/procnote-core/src/execution/engine.rs: `StepSkipped` and `StepUnskipped`.
use procnote.Prelude.{String, ◌≡◌, refl, sym, ap, ◌∙◌, inl, inr, some, Result, ok, get, Bool-cases}
use procnote.Event.{Timestamp, ExecutionId, step_skipped, step_unskipped}
use procnote.Execution.State.{ExecutionError, active, present, StepState, ExecutionState}
use procnote.Execution.Guards.{active_result, require_active, get_step_mut, on_step}
use procnote.Execution.Steps.{has_captured_data}
use procnote.Execution.StepEvents.{
  skip, unskip, unskipped, apply_step_skipped, apply_step_unskipped,
}
use procnote.Execution.Apply.{apply, apply_event}
use procnote.Execution.Transition.{write_step}
use procnote.Execution.Replay.{counted}
use procnote.Execution.Undo.{undo_by, write-write, get-write, was_run, there}

skip-unskip :
    (at : Timestamp) (step_id reason : String) (step : StepState)
    → step.status ≡ present
    → (skip at step_id reason step).0 ≡ ok tt
    → unskip step_id (skip at step_id reason step).1 ≡ (ok tt, step)
unfolding skip unskip unskipped
skip-unskip at step_id reason step here accepted = elim (Bool-cases (has_captured_data step)) [
  | inl captured ↦ cc (rw (captured, skip) at accepted)
  | inr empty ↦ rw empty (ap (λ status. (ok tt, record step { status = status })) (sym here))
]

unskips_step :
    (step_id : String) (step : StepState) (s : ExecutionState)
    → s.status ≡ active
    → get step_id s.steps ≡ some step
    → apply_step_unskipped step_id s
      ≡ ((unskip step_id step).0, write_step step_id (unskip step_id step).1 s)
unfolding apply_step_unskipped require_active active_result get_step_mut on_step
unskips_step step_id step s run found = simp (run, found)

-- Unskipping takes back a skip: if `apply` accepts a `StepSkipped`, it accepts the `StepUnskipped` of
-- this step after it, and leaves the state of before but for the count and the time of the two events.
pub step_skipped-step_unskipped :
    (at at' : Timestamp) (id id' : ExecutionId) (step_id reason reason' : String)
    (s : ExecutionState)
    → (apply (step_skipped at id step_id reason) s).0 ≡ ok tt
    → apply (step_unskipped at' id' step_id reason') (apply (step_skipped at id step_id reason) s).1
      ≡ (
        ok tt,
        counted
            (step_unskipped at' id' step_id reason')
            (counted (step_skipped at id step_id reason) s),
      )
unfolding apply_event apply_step_skipped
step_skipped-step_unskipped at at' id id' step_id reason reason' s accepted =
    let event = step_skipped at id step_id reason in
    let back = step_unskipped at' id' step_id reason' in
    let m = skip at step_id reason in
    let was = was_run event step_id m s refl accepted in
    let step' = (m was.step).1 in
    let t = counted event (write_step step_id step' s) in
    undo_by event back s (write_step step_id step' s) (there event step_id m s refl accepted) (
      unskips_step step_id step' t was.run (get-write step_id step' s)
      ∙ ap (λ (x : Result ExecutionError (Unit {0}) × StepState). (x.0, write_step step_id x.1 t))
          (skip-unskip at step_id reason was.step was.here was.accepts)
      ∙ ap (λ (x : ExecutionState). (ok tt, x))
          (write-write event step_id was.step step' s was.found))
