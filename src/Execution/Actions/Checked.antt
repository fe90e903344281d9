-- ===== src/Execution/Actions/Checked.antt =====
-- crates/procnote-core/src/execution/engine.rs: lemmas on the methods that build events.
use procnote.Prelude.{
  ℕ, String, Bool, ◌≡◌, refl, subst, sym, pure, continue, Option, none, some, List, Result, ok, err,
  ok_or, ◌>>=◌, ◌>>◌,
}
use procnote.Template.{StepContent}
use procnote.Event.{Timestamp, ExecutionId, AttachmentRecord, CompletionStatus, Event, log_meta}
use procnote.Execution.State.{ExecutionError, ExecutionState, Action}
use procnote.Execution.Guards.{active_result, finished_result, require_active, require_finished}
use procnote.Execution.Apply.{apply, apply_event, replay_event}
use procnote.Execution.Actions.{
  require_execution_id, validated_candidate, rename_event, add_step_event, skip_step_event,
  unskip_step_event, toggle_checkbox_event, record_input_event, clear_input_event, add_note_event,
  remove_note_event, add_attachment_event, add_attachments_event, receive_attachment_event,
  assign_attachment_event, unassign_attachment_event, remove_attachment_file_event,
  clear_attachments_event, remove_attachment_event, complete_event, abort_event, reopen_event,
  perform,
}

-- The methods that build an event.
pub data IsBuilder : Action Event → Type 0 where
  renames : (now : Timestamp) (name : String) → IsBuilder (rename_event now name)
  adds_step :
      (now : Timestamp) (step_id heading : String) (content : List StepContent)
      (after_step_id : Option String)
      → IsBuilder (add_step_event now step_id heading content after_step_id)
  skips :
      (now : Timestamp) (step_id reason : String) → IsBuilder (skip_step_event now step_id reason)
  unskips :
      (now : Timestamp) (step_id reason : String) → IsBuilder (unskip_step_event now step_id reason)
  toggles :
      (now : Timestamp) (step_id checkbox_id : String) (checked : Bool)
      → IsBuilder (toggle_checkbox_event now step_id checkbox_id checked)
  records :
      (now : Timestamp) (step_id input_id value : String) (unit : Option String)
      → IsBuilder (record_input_event now step_id input_id value unit)
  clears :
      (now : Timestamp) (step_id input_id reason : String)
      → IsBuilder (clear_input_event now step_id input_id reason)
  adds_note :
      (now : Timestamp) (note_id text : String) (step_id : Option String)
      → IsBuilder (add_note_event now note_id text step_id)
  removes_note :
      (now : Timestamp) (note_id reason : String) → IsBuilder (remove_note_event now note_id reason)
  attaches_one :
      (now : Timestamp) (step_id input_id filename path content_type sha256 : String)
      → IsBuilder (add_attachment_event now step_id input_id filename path content_type sha256)
  attaches :
      (now : Timestamp) (step_id input_id : String) (attachments : List AttachmentRecord)
      → IsBuilder (add_attachments_event now step_id input_id attachments)
  receives :
      (now : Timestamp) (attachment : AttachmentRecord)
      → IsBuilder (receive_attachment_event now attachment)
  assigns :
      (now : Timestamp) (step_id input_id path : String)
      → IsBuilder (assign_attachment_event now step_id input_id path)
  unassigns :
      (now : Timestamp) (step_id input_id path : String)
      → IsBuilder (unassign_attachment_event now step_id input_id path)
  detaches :
      (now : Timestamp) (step_id input_id path : String)
      → IsBuilder (remove_attachment_file_event now step_id input_id path)
  detaches_all :
      (now : Timestamp) (step_id input_id : String)
      → IsBuilder (clear_attachments_event now step_id input_id)
  removes :
      (now : Timestamp) (step_id input_id reason : String)
      → IsBuilder (remove_attachment_event now step_id input_id reason)
  completes : (now : Timestamp) (status : CompletionStatus) → IsBuilder (complete_event now status)
  aborts : (now : Timestamp) (reason : String) → IsBuilder (abort_event now reason)
  reopens : (now : Timestamp) (reason : String) → IsBuilder (reopen_event now reason)

-- The method changes nothing, and an event that it gives is one that `apply` accepts.
abbrev pub Checked : ExecutionState → Result ExecutionError Event → ExecutionState → Type 0
Checked s (ok event) t =
    (t ≡ s) × ((apply event s).0 ≡ ok tt) × (replay_event s event ≡ ok (apply event s).1)
Checked s (err e) t = t ≡ s

abbrev Checks : Action Event → Type 0
Checks build = (s : ExecutionState) → Checked s (build s).0 (build s).1

meta_refused :
    (at : Timestamp) (v : ℕ) (tool : String) (s : ExecutionState)
    → (apply (log_meta at v tool) s).0 ≡ err ExecutionError.replay_metadata_event
unfolding apply apply_event
meta_refused at v tool s = refl

replayed :
    (r : Result ExecutionError (Unit {0})) (t : ExecutionState)
    → r ≡ ok tt
    → ◌≡◌ {A = Result ExecutionError ExecutionState} (elim r [ ok _ ↦ ok t | err e ↦ err e ]) (ok t)
replayed (ok _) t h = refl
replayed (err e) t h = cc

pub accepted-replays :
    (event : Event) (s : ExecutionState)
    → (apply event s).0 ≡ ok tt
    → replay_event s event ≡ ok (apply event s).1
unfolding replay_event
accepted-replays (log_meta at v tool) s h = cc (meta_refused at v tool s)
accepted-replays event s h = replayed (apply event s).0 (apply event s).1 h

validated_candidate-Checks : (event : Event) → Checks (validated_candidate event)
unfolding validated_candidate
validated_candidate-Checks event s = split (apply event s).0 refl
  where
    split :
        (r : Result ExecutionError (Unit {0}))
        → (apply event s).0 ≡ r
        → Checked s (elim r [ ok _ ↦ ok event | err e ↦ err e ]) s
    split (ok tt) accepted = (refl, accepted, accepted-replays event s accepted)
    split (err e) refused = refl

identified-Checks :
    (f : ExecutionId → Event) → Checks (require_execution_id >>= λ id. validated_candidate (f id))
unfolding require_execution_id
identified-Checks f s = split s.execution_id
  where
    split :
        (id : Option ExecutionId)
        → Checked s
            (continue (ok_or id ExecutionError.not_started) (λ id. validated_candidate (f id)) s).0
            (continue (ok_or id ExecutionError.not_started) (λ id. validated_candidate (f id)) s).1
    split none = refl
    split (some id) = validated_candidate-Checks (f id) s

-- A guard that reads the state keeps a method checked.
guarded_Checked :
    (r : Result ExecutionError (Unit {0})) (m : Action Event) (s : ExecutionState)
    → Checked s (m s).0 (m s).1
    → Checked s (continue r (λ _. m) s).0 (continue r (λ _. m) s).1
guarded_Checked (ok _) m s h = h
guarded_Checked (err e) m s h = refl

active-Checks :
    (f : ExecutionId → Event)
    → Checks (require_active >> (require_execution_id >>= λ id. validated_candidate (f id)))
unfolding require_active
active-Checks f s = guarded_Checked (active_result s.status) _ s (identified-Checks f s)

finished-Checks :
    (f : ExecutionId → Event)
    → Checks (require_finished >> (require_execution_id >>= λ id. validated_candidate (f id)))
unfolding require_finished
finished-Checks f s = guarded_Checked (finished_result s.status) _ s (identified-Checks f s)

-- What a method that builds an event gives: it changes nothing, on an error or not, and an event that
-- it gives is accepted by `apply` on the same state, and replays to the state that `apply` leaves.
pub builder-Checked :
    {build : Action Event}
    → IsBuilder build
    → (s : ExecutionState) → Checked s (build s).0 (build s).1
unfolding rename_event add_step_event skip_step_event unskip_step_event toggle_checkbox_event
    record_input_event clear_input_event add_note_event remove_note_event add_attachment_event
    add_attachments_event receive_attachment_event assign_attachment_event unassign_attachment_event
    remove_attachment_file_event clear_attachments_event remove_attachment_event complete_event
    abort_event reopen_event
builder-Checked (IsBuilder.renames _ _) s = identified-Checks _ s
builder-Checked (IsBuilder.reopens _ _) s = finished-Checks _ s
builder-Checked build s = active-Checks _ s

-- What an action leaves: an error and the state as it was, or an event and the state that the event
-- replays to.
abbrev pub Performed : ExecutionState → Result ExecutionError Event → ExecutionState → Type 0
Performed s (ok event) t = replay_event s event ≡ ok t
Performed s (err e) t = t ≡ s

continue-Performed :
    (s : ExecutionState) (r : Result ExecutionError Event) (t : ExecutionState)
    → Checked s r t
    → Performed s
        (continue r (λ event. apply event >> pure event) t).0
        (continue r (λ event. apply event >> pure event) t).1
continue-Performed s (err e) t h = h
continue-Performed s (ok event) t (same, accepted, replays) =
    subst (λ x. Performed s ((apply event >> pure event) x).0 ((apply event >> pure event) x).1)
      (sym same) (after (apply event s).0 (apply event s).1 accepted replays)
  where
    after :
        (r : Result ExecutionError (Unit {0})) (t : ExecutionState)
        → r ≡ ok tt
        → replay_event s event ≡ ok t
        → Performed s (continue r (λ _. pure event) t).0 (continue r (λ _. pure event) t).1
    after (ok _) t a h = h
    after (err e) t a h = cc

-- The log agrees with the state: for each of the actions on an execution, in any state, an error
-- leaves the state as it was, and an event that comes back replays on the state before the action to
-- the state behind it.
pub perform-Performed :
    {build : Action Event}
    → IsBuilder build
    → (s : ExecutionState) → Performed s (perform build s).0 (perform build s).1
unfolding perform
perform-Performed {build} b s = continue-Performed s (build s).0 (build s).1 (builder-Checked b s)
