-- ===== src/Execution/Start/Adds.antt =====
-- crates/procnote-core/src/execution/engine.rs: what one step of a template adds in `start`.
use procnote.Prelude.{
  ℕ, String, eq_iff, eq_refl, ◌≡◌, refl, Option, none, some, List, [], ◌∷◌, ◌++◌, arith, Keyed, get,
  insert, get-insert,
}
use procnote.Template.{Step, StepContent}
use procnote.Event.{Timestamp, ExecutionId}
use procnote.Execution.State.{ExecutionState, StepState}
use procnote.Execution.Transition.{new_step}
use procnote.Execution.Replay.{counted}
use procnote.Execution.Checkboxes.{given_ids}
use procnote.Execution.Start.Assigned.{without_ids, boxes, cb_ids, items-Assigned}
use procnote.Execution.Start.{template_step_id, template_step_event, assign_items}

abbrev pub added : String → String → List StepContent → ExecutionState → ExecutionState
added k heading content s = record s {
  steps = insert k (new_step k heading content) s.steps;
  step_order = s.step_order ++ k ∷ [];
}

-- What the execution is called, what it runs and since when.
abbrev pub heading_of :
    ExecutionState
    → Option ExecutionId
      × Option String
      × Option String
      × Option String
      × Option String
      × Option Timestamp
heading_of s =
    (s.execution_id, s.name, s.procedure_id, s.procedure_title, s.procedure_version, s.started_at)

-- What the event of one template step adds to the state.
pub record Adds (i : ℕ) (step : Step) (s s1 : ExecutionState) : Type 0 where
  pub content : List StepContent
  pub found :
      get (template_step_id i) s1.steps ≡ some (new_step (template_step_id i) step.heading content)
  pub plain : without_ids content ≡ without_ids step.content
  pub ids : given_ids content ≡ cb_ids (template_step_id i) 0 (boxes step.content)
  pub order : s1.step_order ≡ s.step_order ++ template_step_id i ∷ []
  pub headed : heading_of s1 ≡ heading_of s
  pub kept : (k : String) (x : StepState) → get k s.steps ≡ some x → get k s1.steps ≡ some x

added_kept :
    (k j : String) (v x : StepState) (m : Keyed StepState)
    → get k m ≡ none
    → get j m ≡ some x
    → get j (insert k v m) ≡ some x
added_kept k j v x m fresh found = ground (arith, get-insert k j v m, eq_iff k j, fresh, found)

pub template_step-Adds :
    (now : Timestamp) (id : ExecutionId) (i : ℕ) (step : Step) (s : ExecutionState)
    → get (template_step_id i) s.steps ≡ none
    → Adds i step s (
        counted (template_step_event now id i step) (
          added
            (template_step_id i)
            step.heading
            (assign_items (template_step_id i) step.content 0).0
            s))
template_step-Adds now id i step s fresh =
    let k = template_step_id i in
    let (plain, ids, _) = items-Assigned k step.content 0 in
    let v = new_step k step.heading (assign_items k step.content 0).0 in
    record {
      content = (assign_items k step.content 0).0;
      found = ground (arith, get-insert k k v s.steps, eq_refl k);
      plain = plain;
      ids = ids;
      order = refl;
      headed = refl;
      kept = λ j x found. added_kept k j v x s.steps fresh found;
    }
