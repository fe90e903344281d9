-- ===== src/App/Examples.antt =====
-- The theorems on a small execution, and a batch with one content twice.
use procnote.Prelude.{get, insert, String, ◌≡◌, refl, some, List, [], ◌∷◌, ok}
use procnote.Event.{attachment_received}
use procnote.Execution.State.{new, from_record_at}
use procnote.Execution.Steps.{require_attachment_input, scalar_input_label}
use procnote.Execution.Attachments.{
  validate_attachment_path, validate_attachment_paths, duplicate_attachment_path, stored_duplicate,
  add_attachments_to_step, write_files,
}
use procnote.Execution.Lifecycle.{apply_started}
use procnote.Execution.StepEvents.{apply_step_added, apply_input_recorded}
use procnote.Execution.AttachmentEvents.{apply_attachments_added, apply_attachment_received}
use procnote.Execution.Apply.{apply_event, count_event, apply, replay_event, replay, from_events}
use procnote.Execution.Actions.{
  perform, receive_attachment_event, require_execution_id, validated_candidate,
}
use procnote.Execution.AttachmentEvents.{has_attachment_path, has_path}
use procnote.Execution.Fixture.{running}
use procnote.App.Action.{ExecutionAction}
use procnote.App.Repository.{
  StagedFile, Decision, apply_decision, decide_action, decide_receive, receive_loop, add_received,
  has_content, is_known,
}
use procnote.Prelude.{All, inl, inr, none}
use procnote.Event.{EventRecord, attachments_added}
use procnote.App.Sync.{
  Pushed, decide_pushed, referenced_files, find_upload, record_eq, event_execution_id, is_started,
}
use procnote.App.Sync.Files.{IsProvided}
use procnote.App.Sync.Decided.{IsDecided, decide_pushed-IsDecided, decide_pushed-kept}
use procnote.App.Meta.{ActionMeta, non_blank, into_event_meta}
use procnote.App.Meta.Trimmed.{IsKept, into_event_meta-IsKept}
use procnote.App.Decided.{IsAccepted, decide_action-IsAccepted}
use procnote.App.Received.Batch.{Receives, decide_receive-Receives, decide_receive-retry}

abbrev file : String → String → StagedFile
file name sha256 = record {
  file = record { filename = name; path = name; content_type = "image/png"; sha256 = sha256 };
  source = name;
}

abbrev batch : List StagedFile
batch = file "c.png" "c" ∷ file "d.png" "c" ∷ file "b2.png" "b" ∷ []

abbrev asking : ExecutionAction
asking = ExecutionAction.add_attachments "s" "photo" []

decide_action-IsAccepted_example :
    IsAccepted 5 "n" running asking batch (decide_action 5 "n" running asking batch)
decide_action-IsAccepted_example = decide_action-IsAccepted 5 "n" running asking batch

decide_receive-Receives_example : Receives running batch (decide_receive (λ i. i) running batch)
decide_receive-Receives_example = decide_receive-Receives (λ i. i) running batch

abbrev decision : Decision
decision = record {
  events = attachment_received 0 7 (file "c.png" "c").file ∷ [];
  files = file "c.png" "c" ∷ [];
}

received : decide_receive (λ i. i) running batch ≡ ok decision
unfolding new from_record_at require_attachment_input validate_attachment_path
    validate_attachment_paths duplicate_attachment_path stored_duplicate add_attachments_to_step
    apply_started apply_step_added apply_input_recorded apply_attachments_added
    apply_attachment_received apply_event count_event apply replay_event replay from_events get
    insert scalar_input_label write_files perform receive_attachment_event require_execution_id
    validated_candidate receive_loop decide_receive add_received has_content has_attachment_path
    is_known has_path
received = refl

decide_receive-retry_example :
    decide_receive (λ i. i) (apply_decision decision running).1 batch
    ≡ ok (record { events = []; files = [] })
decide_receive-retry_example =
    decide_receive-retry (λ i. i) (λ i. i) running batch decision received

-- A device attaches a picture that it uploads, and names one that the execution has.
abbrev pushed : EventRecord
pushed = record {
  event =
      attachments_added 5 7 "s" "photo" ((file "c.png" "c").file ∷ (file "b2.png" "b").file ∷ []);
  meta = record { event_id = some 1; recorded_by = none; device = none };
}

decide_pushed-IsDecided_example :
    IsDecided 7 running pushed (decide_pushed (λ _. "") 7 running pushed batch)
decide_pushed-IsDecided_example = decide_pushed-IsDecided (λ _. "") 7 running pushed batch

provided : All (IsProvided running (file "c.png" "c" ∷ [])) (referenced_files pushed.event)
unfolding new from_record_at require_attachment_input validate_attachment_path
    validate_attachment_paths duplicate_attachment_path stored_duplicate add_attachments_to_step
    apply_started apply_step_added apply_input_recorded apply_attachments_added
    apply_attachment_received apply_event count_event apply replay_event replay from_events get
    insert scalar_input_label write_files perform receive_attachment_event require_execution_id
    validated_candidate receive_loop decide_receive add_received has_content has_attachment_path
    is_known has_path referenced_files find_upload record_eq
provided = (inl (file "c.png" "c", refl, refl), (inr (refl, refl), tt))

decide_pushed-kept_example :
    (p : Pushed) × (decide_pushed (λ _. "") 7 running pushed (file "c.png" "c" ∷ []) ≡ ok p)
unfolding event_execution_id is_started
decide_pushed-kept_example =
    decide_pushed-kept (λ _. "") 7 running pushed (file "c.png" "c" ∷ []) refl refl refl provided

abbrev named : ActionMeta
named = record { event_id = some 1; recorded_by = some " Ada "; device = some " " }

into_event_meta-IsKept_example :
    IsKept (into_event_meta named).recorded_by
    × IsKept (into_event_meta named).device
    × (non_blank (into_event_meta named).recorded_by ≡ (into_event_meta named).recorded_by)
    × (non_blank (into_event_meta named).device ≡ (into_event_meta named).device)
into_event_meta-IsKept_example = into_event_meta-IsKept named
