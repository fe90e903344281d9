-- ===== src/Execution/Undo.antt =====
-- crates/procnote-core/src/execution/engine.rs: lemmas on events that take back another one.
pub mod Inputs
pub mod Skips
use procnote.Prelude.{
  String, ◌==◌, eq_refl, Bool, true, false, ◌||◌, ◌≡◌, refl, sym, ap, subst, ◌∙◌, inl, inr, Option,
  none, some, [], ◌∷◌, arith, Result, ok, err, continue, ok_or, lift, ◌>>=◌, ◌>>◌, get, insert,
  remove, get-insert, insert_twice, insert-get_self, remove-insert_absent, contains_key, Bool-cases,
  Option-cases, Result-cases, is_some, if◌then◌else◌,
}
use procnote.Event.{
  Timestamp, ExecutionId, Event, input_recorded, input_cleared, step_skipped, step_unskipped,
}
use procnote.Execution.State.{
  ExecutionError, active, StepStatus, present, skipped, StepState, ExecutionState, Action,
  StepAction, RecordedInput,
}
use procnote.Execution.Guards.{
  active_result, require_active, get_step_mut, present_result, get_present_step_mut, on_step,
  on_present_step,
}
use procnote.Execution.Steps.{scalar_input_label, has_captured_data}
use procnote.Execution.StepEvents.{
  skip, unskip, unskipped, record_input_value, clear_input_value, apply_step_skipped,
  apply_step_unskipped, apply_input_recorded, apply_input_cleared,
}
use procnote.Execution.Apply.{apply, apply_event, count_event}
use procnote.Execution.Transition.{write_step}
use procnote.Execution.Transition.Guarded.{Leaves, require_active_rule, on_present_step_rule}
use procnote.Execution.Replay.{counted}

-- A method ran on the present step `step_id` of a running execution.
pub record Ran (step_id : String) (m : StepAction (Unit {0})) (s t : ExecutionState) : Type 0 where
  pub step : StepState
  pub run : s.status ≡ active
  pub found : get step_id s.steps ≡ some step
  pub here : step.status ≡ present
  pub accepts : (m step).0 ≡ ok tt
  pub after : t ≡ write_step step_id (m step).1 s

module _ (step_id : String) (m : StepAction (Unit {0})) (s : ExecutionState) where
  abbrev RanIf : Result ExecutionError (Unit {0}) → ExecutionState → Type 0
  RanIf r t = r ≡ ok tt → Ran step_id m s t

  ran : Leaves RanIf (require_active >> on_present_step step_id m) s
  ran =
      require_active_rule RanIf _ s (λ e h. cc)
        λ run.
          on_present_step_rule RanIf step_id m s (λ e h. cc)
            λ step found here accepts. record {
              step = step;
              run = run;
              found = found;
              here = here;
              accepts = accepts;
              after = refl;
            }

  runs_on_present :
      (step : StepState)
      → s.status ≡ active
      → get step_id s.steps ≡ some step
      → step.status ≡ present
      → (require_active >> on_present_step step_id m) s
        ≡ ((m step).0, write_step step_id (m step).1 s)
  unfolding require_active active_result on_present_step get_present_step_mut get_step_mut
      present_result on_step
  runs_on_present step run found here = simp (run, found, here)

accepted_event :
    (event : Event) (r : Result ExecutionError (Unit {0})) (t : ExecutionState)
    → (continue r (λ _. count_event event) t).0 ≡ ok tt
    → r ≡ ok tt
accepted_event event (ok _) t h = refl
accepted_event event (err e) t h = cc

apply-counted :
    (event : Event) (s s1 : ExecutionState)
    → apply_event event s ≡ (ok tt, s1)
    → apply event s ≡ (ok tt, counted event s1)
unfolding apply count_event
apply-counted event s s1 h =
    ap
      (λ (x : Result ExecutionError (Unit {0}) × ExecutionState).
        continue x.0 (λ _. count_event event) x.1)
      h

-- Taking back, up to the count of the two events.
pub undo_by :
    (event back : Event) (s s1 : ExecutionState)
    → apply_event event s ≡ (ok tt, s1)
    → apply_event back (counted event s1) ≡ (ok tt, counted event s)
    → apply back (apply event s).1 ≡ (ok tt, counted back (counted event s))
undo_by event back s s1 there back_again =
    ap (λ (x : Result ExecutionError (Unit {0}) × ExecutionState). apply back x.1)
      (apply-counted event s s1 there)
    ∙ apply-counted back (counted event s1) (counted event s) back_again

-- Writing the step of before takes back the write.
pub write-write :
    (event : Event) (step_id : String) (step step' : StepState) (s : ExecutionState)
    → get step_id s.steps ≡ some step
    → write_step step_id step (counted event (write_step step_id step' s)) ≡ counted event s
write-write event step_id step step' s found =
    ap (λ x. counted event (record s { steps = x }))
      (insert_twice step_id step' step s.steps ∙ insert-get_self step_id step s.steps found)

pub get-write :
    (step_id : String) (step : StepState) (s : ExecutionState)
    → get step_id (insert step_id step s.steps) ≡ some step
get-write step_id step s = ground (arith, get-insert step_id step_id step s.steps, eq_refl step_id)

pair_of : {A B : Type 0} (x : A × B) {a : A} {b : B} → x.0 ≡ a → x.1 ≡ b → ◌≡◌ {A = A × B} x (a, b)
pair_of x p q = cc

-- A method that ran on a step is taken back by one that gives the step of before.
module _ (event : Event) (step_id : String) (m : StepAction (Unit {0})) (s : ExecutionState)
    (is_event : apply_event event s ≡ (require_active >> on_present_step step_id m) s)
    (accepted : (apply event s).0 ≡ ok tt) where
  pub was_run : Ran step_id m s (apply_event event s).1
  unfolding apply
  was_run =
      subst
        (λ (x : Result ExecutionError (Unit {0}) × ExecutionState).
          x.0 ≡ ok tt → Ran step_id m s x.1)
        (sym is_event) (ran step_id m s)
        (accepted_event event (apply_event event s).0 (apply_event event s).1 accepted)

  pub there : apply_event event s ≡ (ok tt, write_step step_id (m was_run.step).1 s)
  there =
      is_event
      ∙ runs_on_present step_id m s was_run.step was_run.run was_run.found was_run.here
      ∙ ap (λ r. (r, write_step step_id (m was_run.step).1 s)) was_run.accepts

  -- The second method, on the step as the first one left it.
  pub back_on_present :
      (m' : StepAction (Unit {0}))
      → (m was_run.step).1.status ≡ present
      → m' (m was_run.step).1 ≡ (ok tt, was_run.step)
      → (require_active >> on_present_step step_id m')
          (counted event (write_step step_id (m was_run.step).1 s))
        ≡ (ok tt, counted event s)
  back_on_present m' still restores =
      let t = counted event (write_step step_id (m was_run.step).1 s) in
      runs_on_present step_id m' t (m was_run.step).1 was_run.run
        (get-write step_id (m was_run.step).1 s) still
      ∙ ap (λ (x : Result ExecutionError (Unit {0}) × StepState). (x.0, write_step step_id x.1 t))
          restores
      ∙ ap (λ (x : ExecutionState). (ok tt, x))
          (write-write event step_id was_run.step (m was_run.step).1 s was_run.found)
