-- ===== src/Execution/Transition/Guarded.antt =====
-- crates/procnote-core/src/execution/engine.rs: rules for the guards of `apply`.
use procnote.Prelude.{
  Bool, true, false, if◌then◌else◌, String, ◌≡◌, refl, ap, inl, inr, Option, none, some, Result, ok,
  err, get, insert, ◌>>=◌, ◌>>◌, continue, lift, AllEntries-get, ◌∙◌, insert-get_self, Option-cases,
  ok_or,
}
use procnote.Execution.State.{
  ExecutionError, ExecutionStatus, pending, active, finished, StepStatus, present, skipped,
  StepState, ExecutionState, Action, StepAction,
}
use procnote.Execution.Guards.{
  active_result, present_result, require_active, on_step, on_present_step,
}
use procnote.Execution.Transition.{Transition, Outcome, write_step}
use procnote.Execution.Sound.{IsSoundState}
use procnote.Execution.Transition.StepMoves.{StepOutcome, Moves}

-- What a method leaves behind satisfies `Q`.
abbrev pub Leaves :
    {A : Type 0}
    → (Result ExecutionError A → ExecutionState → Type 0)
    → Action A
    → ExecutionState
    → Type 0
Leaves Q m s = Q (m s).0 (m s).1

pub ok_or_cases :
    {A : Type 0} (o : Option A) (e : ExecutionError) {a : A} → ok_or o e ≡ ok a → o ≡ some a
ok_or_cases none e h = cc
ok_or_cases (some a) e h = cc

module _ {A : Type 0} (Q : Result ExecutionError A → ExecutionState → Type 0) where
  pub require_active_rule :
      (k : Action A) (s : ExecutionState)
      → ((e : ExecutionError) → Q (err e) s)
      → (s.status ≡ active → Leaves Q k s)
      → Leaves Q (require_active >> k) s
  unfolding require_active
  require_active_rule k s fails goes = split s.status refl
    where
      split :
          (status : ExecutionStatus)
          → s.status ≡ status
          → Leaves Q (λ t. continue (active_result status) (λ _. k) t) s
      split pending e = fails ExecutionError.not_started
      split active e = goes e
      split (finished c) e = fails ExecutionError.already_finished

  pub on_present_step_rule :
      (step_id : String) (m : StepAction A) (s : ExecutionState)
      → ((e : ExecutionError) → Q (err e) s)
      → ((step : StepState)
          → get step_id s.steps ≡ some step
          → step.status ≡ present
          → Q (m step).0 (write_step step_id (m step).1 s))
      → Leaves Q (on_present_step step_id m) s
  unfolding on_present_step
  on_present_step_rule step_id m s fails goes = elim (Option-cases (get step_id s.steps)) [
    | inl missing ↦ rw missing (fails (ExecutionError.step_not_found step_id))
    | inr (step, found) ↦ rw found (split step step.status refl found)
  ]
    where
      split :
          (step : StepState) (status : StepStatus)
          → step.status ≡ status
          → get step_id s.steps ≡ some step
          → Leaves Q
              (λ t. continue (present_result step_id step status) (λ x. on_step step_id x m) t)
              s
      split step present e found = goes step found e
      split step (skipped _ _) e found = fails (ExecutionError.step_already_skipped step_id)

  pub if_rule :
      (b : Bool) (k l : Action A) (s : ExecutionState)
      → (b ≡ true → Leaves Q k s)
      → (b ≡ false → Leaves Q l s)
      → Leaves Q (if b then k else l) s
  if_rule true k l s yes_case no_case = yes_case refl
  if_rule false k l s yes_case no_case = no_case refl

  pub lift_rule :
      {B : Type 0} (r : Result ExecutionError B) (k : B → Action A) (s : ExecutionState)
      → ((e : ExecutionError) → Q (err e) s)
      → ((b : B) → r ≡ ok b → Leaves Q (k b) s)
      → Leaves Q (lift r >>= k) s
  lift_rule (ok b) k s fails goes = goes b refl
  lift_rule (err e) k s fails goes = fails e

-- A method that moves the step, or fails and leaves it, does so on the execution.
write-Outcome :
    {A : Type 0} (step_id : String) (s : ExecutionState) (step : StepState)
    → s.status ≡ active
    → get step_id s.steps ≡ some step
    → step.status ≡ present
    → (r : Result ExecutionError A) (step' : StepState) → StepOutcome step r step'
    → Outcome s r (write_step step_id step' s)
write-Outcome step_id s step run found here (ok a) step' move =
    Transition.moves step_id step step' run found here move
write-Outcome step_id s step run found here (err e) step' same =
    ap (λ x. record s { steps = x })
      (ap (λ x. insert step_id x s.steps) same ∙ insert-get_self step_id step s.steps found)

pub on_present_step-Outcome :
    {A : Type 0} (step_id : String) (m : StepAction A) (s : ExecutionState)
    → Moves m
    → IsSoundState s
    → s.status ≡ active
    → Leaves (Outcome s) (on_present_step step_id m) s
on_present_step-Outcome step_id m s moves h run =
    on_present_step_rule (Outcome s) step_id m s (λ e. refl)
      λ step found here.
        write-Outcome step_id s step run found here (m step).0 (m step).1
          (moves step (AllEntries-get _ step_id step s.steps h.steps found).1)
