-- ===== src/App/Repository.antt =====
-- crates/procnote-app/src/repository.rs: which events a request records. An error of an execution is
-- turned into its message. `now` is the time that `Utc::now()` reads, and `note_id` a new UUID as text.
use procnote.Prelude.{
  ℕ, ◌+◌, String, ◌==◌, Bool, true, false, ◌||◌, List, [], ◌∷◌, map, Result, ok, err, Exec, pure,
  ◌>>◌, any, if◌then◌else◌, is_empty, values,
}
use procnote.Event.{Timestamp, AttachmentRecord, Event}
use procnote.Execution.State.{ExecutionError, ExecutionState, Action}
use procnote.Execution.Describe.{describe}
use procnote.Execution.Apply.{apply}
use procnote.Execution.Actions.{
  rename_event, add_step_event, skip_step_event, unskip_step_event, toggle_checkbox_event,
  record_input_event, clear_input_event, add_note_event, remove_note_event, add_attachments_event,
  receive_attachment_event, assign_attachment_event, unassign_attachment_event,
  remove_attachment_file_event, clear_attachments_event, remove_attachment_event, complete_event,
  abort_event, reopen_event, perform,
}
use procnote.Execution.AttachmentEvents.{has_attachment_path}
use procnote.App.Action.{ExecutionAction}

-- `file` is the field `record`, which is a keyword here.
pub record StagedFile : Type 0 where
  pub file : AttachmentRecord
  pub source : String

pub record Decision : Type 0 where
  pub events : List Event
  pub files : List StagedFile

-- `FnMut(&ExecutionState) -> Result<Decision, String>`, with the variables that it captures.
abbrev pub Decide : Type 0 → Type 0
Decide O = ExecutionState → O → Result String Decision × O

-- `.map_err(|e| e.to_string())`
unfoldable pub message : {A : Type 0} → Result ExecutionError A → Result String A
message (ok a) = ok a
message (err e) = err (describe e)

unfoldable pub messages : {A : Type 0} → Action A → Exec String ExecutionState A
unfolding message
messages m s = let (r, s') = m s in (message r, s')

unfoldable pub apply_events : List Event → Exec String ExecutionState (Unit {0})
apply_events [] = pure tt
apply_events (event ∷ events) = messages (apply event) >> apply_events events

unfoldable pub apply_decision : Decision → Exec String ExecutionState (Unit {0})
apply_decision decision = apply_events decision.events

-- The end of `decide_action`: one event, and the files that it refers to.
unfoldable pub decide_one : List StagedFile → Result ExecutionError Event → Result String Decision
decide_one files (ok event) = ok (record { events = event ∷ []; files = files })
decide_one files (err e) = err (describe e)

unfoldable pub decide_attachments :
    Timestamp → String → String → List StagedFile → ExecutionState → Result String Decision
unfolding decide_one
decide_attachments now step_id input_id files s =
    if is_empty files
    then err "at least one attachment file is required"
    else decide_one files
        (add_attachments_event now step_id input_id (map (λ (f : StagedFile). f.file) files) s).0

unfoldable pub decide_action :
    Timestamp → String → ExecutionState → ExecutionAction → List StagedFile → Result String Decision
unfolding decide_one decide_attachments
decide_action now note_id s (ExecutionAction.skip_step step_id reason) files =
    decide_one [] (skip_step_event now step_id reason s).0
decide_action now note_id s (ExecutionAction.unskip_step step_id reason) files =
    decide_one [] (unskip_step_event now step_id reason s).0
decide_action now note_id s (ExecutionAction.toggle_checkbox step_id checkbox_id checked) files =
    decide_one [] (toggle_checkbox_event now step_id checkbox_id checked s).0
decide_action now note_id s (ExecutionAction.record_input step_id input_id value unit) files =
    decide_one [] (record_input_event now step_id input_id value unit s).0
decide_action now note_id s (ExecutionAction.clear_input step_id input_id reason) files =
    decide_one [] (clear_input_event now step_id input_id reason s).0
decide_action now note_id s (ExecutionAction.add_note text step_id) files =
    decide_one [] (add_note_event now note_id text step_id s).0
decide_action now note_id s (ExecutionAction.remove_note removed reason) files =
    decide_one [] (remove_note_event now removed reason s).0
decide_action now note_id s (ExecutionAction.add_step step_id heading content after) files =
    decide_one [] (add_step_event now step_id heading content after s).0
decide_action now note_id s (ExecutionAction.add_attachment step_id input_id _ _ _) files =
    decide_attachments now step_id input_id files s
decide_action now note_id s (ExecutionAction.add_attachments step_id input_id _) files =
    decide_attachments now step_id input_id files s
decide_action now note_id s (ExecutionAction.remove_attachment_file step_id input_id path) files =
    decide_one [] (remove_attachment_file_event now step_id input_id path s).0
decide_action now note_id s (ExecutionAction.clear_attachments step_id input_id) files =
    decide_one [] (clear_attachments_event now step_id input_id s).0
decide_action now note_id s (ExecutionAction.remove_attachment step_id input_id reason) files =
    decide_one [] (remove_attachment_event now step_id input_id reason s).0
decide_action now note_id s (ExecutionAction.assign_attachment step_id input_id path) files =
    decide_one [] (assign_attachment_event now step_id input_id path s).0
decide_action now note_id s (ExecutionAction.unassign_attachment step_id input_id path) files =
    decide_one [] (unassign_attachment_event now step_id input_id path s).0
decide_action now note_id s (ExecutionAction.complete status) files =
    decide_one [] (complete_event now status s).0
decide_action now note_id s (ExecutionAction.abort reason) files =
    decide_one [] (abort_event now reason s).0
decide_action now note_id s (ExecutionAction.rename_execution name) files =
    decide_one [] (rename_event now name s).0
decide_action now note_id s (ExecutionAction.reopen_execution reason) files =
    decide_one [] (reopen_event now reason s).0

-- The files of an execution: its inbox, and what stands on its steps.
unfoldable pub has_content : ExecutionState → String → Bool
has_content s sha256 =
    any s.inbox (λ file. file.sha256 == sha256)
    || any (values s.steps)
        (λ step. any (values step.attachments) (λ files. any files (λ file. file.sha256 == sha256)))

-- The test under which `decide_receive` passes a file by.
unfoldable pub is_known : ExecutionState → StagedFile → Bool
is_known s f = has_content s f.file.sha256 || has_attachment_path f.file.path s

unfoldable pub add_received : Event → StagedFile → Decision → Decision
add_received event f d = record { events = event ∷ d.events; files = f ∷ d.files }

-- The loop of `decide_receive` over the files, on its copy of the state. Each file that is received
-- reads the clock once more.
unfoldable pub receive_loop :
    (ℕ → Timestamp) → ℕ → ExecutionState → List StagedFile → Result String Decision
unfolding is_known
receive_loop clock i next [] = ok (record { events = []; files = [] })
receive_loop clock i next (f ∷ files) = elim (is_known next f) [
  | true ↦ receive_loop clock i next files
  | false ↦
      let (r, next') = perform (receive_attachment_event (clock i) f.file) next in
      elim r [
        | err e ↦ err (describe e)
        | ok event ↦ elim (receive_loop clock (i + 1) next' files) [
          | err e ↦ err e
          | ok d ↦ ok (add_received event f d)
        ]
      ]
]

unfoldable pub decide_receive :
    (ℕ → Timestamp) → ExecutionState → List StagedFile → Result String Decision
decide_receive clock s files = receive_loop clock 0 s files
