-- ===== src/Execution/Examples.antt =====
-- The theorems on a small execution.
use procnote.Prelude.{
  suc, ◌%◌, ◌^◌, ◌≤◌, String, ◌≡◌, refl, ap, none, some, List, [], ◌∷◌, ok, err, codes, length,
  occurrences, arith,
}
use procnote.Template.{ProcedureTemplate}
use procnote.Event.{Event, execution_started}
use procnote.Execution.State.{ExecutionError}
use procnote.Execution.Checkboxes.{Namer, fresh_id, given_ids, execution_content_with_checkbox_ids}
use procnote.Execution.Attachments.{split, slash, validate_attachment_path}
use procnote.Execution.Apply.{apply}
use procnote.Execution.Actions.{add_note_event, perform}
use procnote.Execution.Actions.Checked.{IsBuilder, Performed, perform-Performed}
use procnote.Execution.Replay.{counted}
use procnote.Execution.Replay.Counter.{last_time, from_events-updated_at}
use procnote.Prelude.{true}
use procnote.Execution.State.{ExecutionStepContent}
use procnote.Execution.Steps.{toggle_content, checkboxes}
use procnote.Execution.Steps.Toggle.{map_some, toggle_first, toggle_content-checkboxes}
use procnote.Execution.Fixture.{opened, records, skips}
use procnote.Execution.Undo.Inputs.{input_recorded-input_cleared}
use procnote.Execution.Undo.Skips.{step_skipped-step_unskipped}
use procnote.Event.{input_recorded, input_cleared, step_skipped, step_unskipped}
use procnote.Execution.Fixture.{
  content, events, running, replays, running_active, misassigned, misassigned_refused,
}
use procnote.Execution.Sound.{IsSoundState}
use procnote.Execution.Replay.{
  Applied, apply-Applied, apply-error_unchanged, from_events-IsSoundState,
}
use procnote.Execution.Replay.Counter.{from_events-applied_events}
use procnote.Execution.Refusals.{refusal, apply-refusal}
use procnote.Execution.Attachments.Containment.{resolve, validate_attachment_path-resolve}
use procnote.Execution.Checkboxes.Fresh.{fresh_id_total}
use procnote.Execution.Checkboxes.Distinct.{checkbox_ids, checkbox_ids_distinct}
use procnote.Execution.Invariants.Lifecycle.{FitsStatus, from_events-FitsStatus}
use procnote.Execution.Invariants.Order.{IsOrdered, from_events-IsOrdered}
use procnote.Execution.Invariants.Notes.{HasUniqueNotes, from_events-HasUniqueNotes}

from_events-IsSoundState_example : IsSoundState running
from_events-IsSoundState_example = from_events-IsSoundState events running replays

apply-error_unchanged_example : (apply misassigned running).1 ≡ running
apply-error_unchanged_example =
    apply-error_unchanged misassigned running (ExecutionError.attachment_input_not_found "current")
      (from_events-IsSoundState events running replays) misassigned_refused

apply-Applied_example :
    Applied misassigned running (apply misassigned running).0 (apply misassigned running).1
apply-Applied_example =
    apply-Applied misassigned running (from_events-IsSoundState events running replays)

perform-Performed_example :
    Performed running
      (perform (add_note_event 5 "n" "ok" (some "s")) running).0
      (perform (add_note_event 5 "n" "ok" (some "s")) running).1
perform-Performed_example = perform-Performed (IsBuilder.adds_note 5 "n" "ok" (some "s")) running

from_events-FitsStatus_example : FitsStatus running.status running
from_events-FitsStatus_example = from_events-FitsStatus events running replays

apply-refusal_example :
    (apply (execution_started 5 7 "P" "title" "1.0") running).0 ≡ err ExecutionError.already_started
apply-refusal_example =
    apply-refusal (execution_started 5 7 "P" "title" "1.0") running ExecutionError.already_started
      (from_events-FitsStatus events running replays)
      (ap (λ status. refusal status (execution_started 5 7 "P" "title" "1.0")) running_active)

from_events-IsOrdered_example : IsOrdered running
from_events-IsOrdered_example = from_events-IsOrdered events running replays

from_events-HasUniqueNotes_example : HasUniqueNotes running
from_events-HasUniqueNotes_example = from_events-HasUniqueNotes events running replays

from_events-applied_events_example : running.applied_events ≡ 5 % 2 ^ 64
from_events-applied_events_example = from_events-applied_events events running replays

-- Two of the three first candidates are taken.
abbrev taken : Namer
taken = record { used_ids = "s/cb-0" ∷ "s/cb-1" ∷ []; checkbox_index = 0 }

fresh_id_total_example :
    (found : String × Namer) × (fresh_id (suc (length taken.used_ids)) "s" taken ≡ some found)
fresh_id_total_example = fresh_id_total "s" taken

given_once : (id : String) → occurrences id (given_ids content) ≤ 1
unfolding given_ids
given_once id = ground arith

checkbox_ids_distinct_example :
    (occurrences "s/cb-0" (checkbox_ids (execution_content_with_checkbox_ids "s" content)) ≤ 1)
    × (occurrences "s/cb-0" (given_ids content)
        ≤ occurrences "s/cb-0" (checkbox_ids (execution_content_with_checkbox_ids "s" content)))
checkbox_ids_distinct_example = checkbox_ids_distinct "s" content given_once "s/cb-0"

photo_valid : validate_attachment_path "attachments/a.png" ≡ ok tt
unfolding validate_attachment_path
photo_valid = refl

validate_attachment_path-resolve_example :
    resolve (codes "runs" ∷ []) (split slash (codes "attachments/a.png"))
    ≡ codes "runs" ∷ split slash (codes "attachments/a.png")
validate_attachment_path-resolve_example =
    validate_attachment_path-resolve "attachments/a.png" (codes "runs" ∷ []) photo_valid

abbrev template : ProcedureTemplate
template = record {
  metadata = record {
    id = "P";
    title = "title";
    version = "1.0";
    author = none;
    equipment = [];
    requirement_traces = [];
  };
  steps =
      record { id = none; heading = "First"; content = content }
      ∷ record { id = none; heading = "Second"; content = [] }
      ∷ [];
}

input_recorded-input_cleared_example :
    apply
      (input_cleared 3 7 "s" "current" "typo")
      (apply (input_recorded 2 7 "s" "current" "12" none) opened).1
    ≡ (
      ok tt,
      counted
          (input_cleared 3 7 "s" "current" "typo")
          (counted (input_recorded 2 7 "s" "current" "12" none) opened),
    )
input_recorded-input_cleared_example =
    input_recorded-input_cleared 2 3 7 7 "s" "current" "12" "typo" none opened records

step_skipped-step_unskipped_example :
    apply (step_unskipped 3 7 "s" "repaired") (apply (step_skipped 2 7 "s" "broken") opened).1 ≡ (
      ok tt,
      counted (step_unskipped 3 7 "s" "repaired") (counted (step_skipped 2 7 "s" "broken") opened),
    )
step_skipped-step_unskipped_example =
    step_skipped-step_unskipped 2 3 7 7 "s" "broken" "repaired" opened skips

from_events-updated_at_example : running.updated_at ≡ last_time none events
from_events-updated_at_example = from_events-updated_at events running replays

abbrev boxes : List ExecutionStepContent
boxes = execution_content_with_checkbox_ids "s" content

toggle_content-checkboxes_example :
    map_some checkboxes (toggle_content "s/cb-1" true 5 boxes)
    ≡ toggle_first "s/cb-1" true 5 (checkboxes boxes)
toggle_content-checkboxes_example = toggle_content-checkboxes "s/cb-1" true 5 boxes
