-- ===== src/Execution/Fixture.antt =====
-- A small execution, for the tests and the examples.
use procnote.Prelude.{
  ◌≡◌, refl, get, insert, false, true, none, some, List, [], ◌∷◌, Result, ok, err,
}
use procnote.Template.{InputDefinition, InputType, StepContent}
use procnote.Event.{
  Event, execution_started, step_added, input_recorded, step_skipped, attachments_added,
  attachment_received, attachment_assigned,
}
use procnote.Execution.State.{ExecutionError, ExecutionState}
use procnote.Execution.State.{new, active, from_record_at, to_record}
use procnote.Execution.Steps.{require_attachment_input, scalar_input_label}
use procnote.Execution.Attachments.{
  validate_attachment_path, validate_attachment_paths, duplicate_attachment_path, stored_duplicate,
  add_attachments_to_step, write_files,
}
use procnote.Execution.Lifecycle.{apply_started}
use procnote.Execution.StepEvents.{apply_step_added, apply_step_skipped, apply_input_recorded}
use procnote.Execution.AttachmentEvents.{
  apply_attachments_added, apply_attachment_received, apply_attachment_assigned,
}
use procnote.Execution.Apply.{apply_event, count_event, apply, replay_event, replay, from_events}

abbrev pub current : InputDefinition
current = record {
  id = "current";
  label = "Measure current";
  input_type = InputType.measurement;
  unit = some "mA";
  options = [];
  expected = none;
}

abbrev pub photo : InputDefinition
photo = record {
  id = "photo";
  label = "Photo";
  input_type = InputType.attachment;
  unit = none;
  options = [];
  expected = none;
}

abbrev pub content : List StepContent
content =
    StepContent.checkbox none "voltage stable" false none
    ∷ StepContent.input_block (current ∷ photo ∷ [])
    ∷ StepContent.checkbox (some "s/cb-0") "off" true none
    ∷ []

abbrev pub events : List Event
events =
    execution_started 1 7 "P" "title" "1.0"
    ∷ step_added 1 7 "s" "Step" content none
    ∷ input_recorded 2 7 "s" "current" "12" none
    ∷ attachments_added 3 7 "s" "photo" (
        record {
          filename = "a.png";
          path = "attachments/a.png";
          content_type = "image/png";
          sha256 = "";
        }
        ∷ [])
    ∷ attachment_received 4 7 (record {
      filename = "b.png";
      path = "attachments/b.png";
      content_type = "image/png";
      sha256 = "b";
    })
    ∷ []

abbrev pub state_of : Result ExecutionError ExecutionState → ExecutionState
state_of (ok s) = s
state_of (err e) = new

abbrev pub running : ExecutionState
running = state_of (from_events events)

pub replays : from_events events ≡ ok running
unfolding new from_record_at require_attachment_input validate_attachment_path
    validate_attachment_paths duplicate_attachment_path stored_duplicate add_attachments_to_step
    apply_started apply_step_added apply_input_recorded apply_attachments_added
    apply_attachment_received apply_event count_event apply replay_event replay from_events get
    insert scalar_input_label write_files
replays = refl

-- The inbox file does not go to an input that takes a measurement.
abbrev pub misassigned : Event
misassigned = attachment_assigned 5 7 "s" "current" "attachments/b.png"

pub misassigned_refused :
    (apply misassigned running).0 ≡ err (ExecutionError.attachment_input_not_found "current")
unfolding new from_record_at require_attachment_input validate_attachment_path
    validate_attachment_paths duplicate_attachment_path stored_duplicate add_attachments_to_step
    apply_started apply_step_added apply_input_recorded apply_attachments_added
    apply_attachment_received apply_event count_event apply replay_event replay from_events get
    insert scalar_input_label write_files apply_attachment_assigned to_record
misassigned_refused = refl

pub running_active : running.status ≡ active
unfolding new from_record_at require_attachment_input validate_attachment_path
    validate_attachment_paths duplicate_attachment_path stored_duplicate add_attachments_to_step
    apply_started apply_step_added apply_input_recorded apply_attachments_added
    apply_attachment_received apply_event count_event apply replay_event replay from_events get
    insert scalar_input_label write_files
running_active = refl

-- The step is there, and nothing is recorded yet.
abbrev pub opened : ExecutionState
opened = state_of (
    from_events
      (execution_started 1 7 "P" "title" "1.0" ∷ step_added 1 7 "s" "Step" content none ∷ []))

pub records : (apply (input_recorded 2 7 "s" "current" "12" none) opened).0 ≡ ok tt
unfolding new from_record_at require_attachment_input validate_attachment_path
    validate_attachment_paths duplicate_attachment_path stored_duplicate add_attachments_to_step
    apply_started apply_step_added apply_input_recorded apply_attachments_added
    apply_attachment_received apply_event count_event apply replay_event replay from_events get
    insert scalar_input_label write_files
records = refl

pub skips : (apply (step_skipped 2 7 "s" "broken") opened).0 ≡ ok tt
unfolding new from_record_at require_attachment_input validate_attachment_path
    validate_attachment_paths duplicate_attachment_path stored_duplicate add_attachments_to_step
    apply_started apply_step_added apply_input_recorded apply_attachments_added
    apply_attachment_received apply_event count_event apply replay_event replay from_events get
    insert scalar_input_label write_files apply_step_skipped
skips = refl
