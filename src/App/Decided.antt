-- ===== src/App/Decided.antt =====
-- crates/procnote-app/src/repository.rs: lemmas on `decide_action`.
use procnote.Prelude.{
  String, Bool, true, false, ◌&&◌, ◌≡◌, refl, ap, ◌∙◌, Option, none, some, List, [], ◌∷◌, map,
  Result, ok, err, ok_or, ◌>>=◌, ◌>>◌, continue, is_empty, ◌⊎◌, inl, inr,
}
use procnote.Event.{
  Timestamp, ExecutionId, Event, execution_completed, execution_aborted, execution_reopened,
  step_added, step_skipped, step_unskipped, checkbox_toggled, input_recorded, input_cleared,
  note_added, note_removed, attachments_added, attachment_file_removed, attachments_cleared,
  attachment_assigned, attachment_unassigned, execution_renamed,
}
use procnote.Execution.State.{ExecutionError, ExecutionState, Action}
use procnote.Execution.Describe.{describe}
use procnote.Execution.Guards.{active_result, finished_result, require_active, require_finished}
use procnote.Execution.Apply.{apply}
use procnote.Execution.Refusals.{needs_active, apply-inactive, apply-unfinished}
use procnote.Execution.Actions.{
  require_execution_id, validated_candidate, rename_event, add_step_event, skip_step_event,
  unskip_step_event, toggle_checkbox_event, record_input_event, clear_input_event, add_note_event,
  remove_note_event, add_attachments_event, assign_attachment_event, unassign_attachment_event,
  remove_attachment_file_event, clear_attachments_event, remove_attachment_event, complete_event,
  abort_event, reopen_event,
}
use procnote.App.Action.{ExecutionAction}
use procnote.App.Repository.{
  StagedFile, Decision, messages, message, apply_events, apply_decision, decide_one,
  decide_attachments, decide_action,
}

-- The event that an action asks for, in the execution with this ID.
abbrev pub asked : Timestamp → String → ExecutionAction → List StagedFile → ExecutionId → Event
asked now note (ExecutionAction.skip_step k reason) files id = step_skipped now id k reason
asked now note (ExecutionAction.unskip_step k reason) files id = step_unskipped now id k reason
asked now note (ExecutionAction.toggle_checkbox k box checked) files id =
    checkbox_toggled now id k box checked
asked now note (ExecutionAction.record_input k i value unit) files id =
    input_recorded now id k i value unit
asked now note (ExecutionAction.clear_input k i reason) files id = input_cleared now id k i reason
asked now note (ExecutionAction.add_note text k) files id = note_added now id note text k
asked now note (ExecutionAction.remove_note n reason) files id = note_removed now id n reason
asked now note (ExecutionAction.add_step k heading content after) files id =
    step_added now id k heading content after
asked now note (ExecutionAction.add_attachment k i _ _ _) files id =
    attachments_added now id k i (map (λ (f : StagedFile). f.file) files)
asked now note (ExecutionAction.add_attachments k i _) files id =
    attachments_added now id k i (map (λ (f : StagedFile). f.file) files)
asked now note (ExecutionAction.remove_attachment_file k i path) files id =
    attachment_file_removed now id k i path
asked now note (ExecutionAction.clear_attachments k i) files id = attachments_cleared now id k i
asked now note (ExecutionAction.remove_attachment k i reason) files id =
    attachments_cleared now id k i
asked now note (ExecutionAction.assign_attachment k i path) files id =
    attachment_assigned now id k i path
asked now note (ExecutionAction.unassign_attachment k i path) files id =
    attachment_unassigned now id k i path
asked now note (ExecutionAction.complete status) files id = execution_completed now id status
asked now note (ExecutionAction.abort reason) files id = execution_aborted now id reason
asked now note (ExecutionAction.rename_execution name) files id = execution_renamed now id name
asked now note (ExecutionAction.reopen_execution reason) files id = execution_reopened now id reason

-- The actions that add files.
abbrev pub attaches : ExecutionAction → Bool
attaches (ExecutionAction.add_attachment _ _ _ _ _) = true
attaches (ExecutionAction.add_attachments _ _ _) = true
attaches _ = false

-- The files that go with the event.
abbrev pub taken : ExecutionAction → List StagedFile → List StagedFile
taken (ExecutionAction.add_attachment _ _ _ _ _) files = files
taken (ExecutionAction.add_attachments _ _ _) files = files
taken _ files = []

-- How an event is decided on, given the execution's ID: it is the one for this ID, and `apply` takes
-- it; or there is no ID; or `apply` refuses the event with the same error.
abbrev Answers : ExecutionState → (ExecutionId → Event) → Result ExecutionError Event → Type 0
Answers s f (ok event) =
    (id : ExecutionId) × (s.execution_id ≡ some id) × (event ≡ f id) × ((apply (f id) s).0 ≡ ok tt)
Answers s f (err x) =
    (s.execution_id ≡ none)
    ⊎ ((id : ExecutionId) × (s.execution_id ≡ some id) × ((apply (f id) s).0 ≡ err x))

-- The same for a decision, with its files, and whether files are missing.
abbrev pub Decides :
    ExecutionState
    → (ExecutionId → Event)
    → List StagedFile
    → Bool
    → Result String Decision
    → Type 0
Decides s f files missing (ok d) =
    (missing ≡ false)
    × ((id : ExecutionId) × (s.execution_id ≡ some id)
        × (d.events ≡ f id ∷ [])
        × (d.files ≡ files)
        × (apply_decision d s ≡ (ok tt, (apply (f id) s).1)))
Decides s f files missing (err e) =
    ((missing ≡ true) × (e ≡ "at least one attachment file is required"))
    ⊎ ((s.execution_id ≡ none)
        ⊎ ((id : ExecutionId) × (x : ExecutionError) × (s.execution_id ≡ some id)
            × ((apply (f id) s).0 ≡ err x)
            × (e ≡ describe x)))

abbrev pub IsAccepted :
    Timestamp
    → String
    → ExecutionState
    → ExecutionAction
    → List StagedFile
    → Result String Decision
    → Type 0
IsAccepted now note s action files r =
    Decides s (asked now note action files) (taken action files) (attaches action && is_empty files)
      r

validated_candidate-Answers :
    (f : ExecutionId → Event) (s : ExecutionState) (id : ExecutionId)
    → s.execution_id ≡ some id
    → Answers s f (validated_candidate (f id) s).0
unfolding validated_candidate
validated_candidate-Answers f s id known = split (apply (f id) s).0 refl
  where
    split :
        (r : Result ExecutionError (Unit {0}))
        → (apply (f id) s).0 ≡ r
        → Answers s f (elim r [ ok _ ↦ ok (f id) | err e ↦ err e ])
    split (ok tt) h = (id, known, refl, h)
    split (err e) h = inr (id, known, h)

identified-Answers :
    (f : ExecutionId → Event) (s : ExecutionState)
    → Answers s f ((require_execution_id >>= λ id. validated_candidate (f id)) s).0
unfolding require_execution_id
identified-Answers f s = split s.execution_id refl
  where
    split :
        (id : Option ExecutionId)
        → s.execution_id ≡ id
        → Answers s f
            (continue (ok_or id ExecutionError.not_started) (λ id. validated_candidate (f id)) s).0
    split none h = inl h
    split (some id) h = validated_candidate-Answers f s id h

-- A guard refuses with the error that `apply` gives.
guarded-Answers :
    (f : ExecutionId → Event) (m : Action Event) (s : ExecutionState)
    (r : Result ExecutionError (Unit {0}))
    → ((e : ExecutionError) → r ≡ err e → (id : ExecutionId) → (apply (f id) s).0 ≡ err e)
    → Answers s f (m s).0
    → Answers s f (continue r (λ _. m) s).0
guarded-Answers f m s (ok _) same h = h
guarded-Answers f m s (err e) same h = split s.execution_id refl
  where
    split : (id : Option ExecutionId) → s.execution_id ≡ id → Answers s f (err e)
    split none unknown = inl unknown
    split (some id) known = inr (id, known, same e refl id)

active-Answers :
    (f : ExecutionId → Event) (s : ExecutionState)
    → ((id : ExecutionId) → needs_active (f id) ≡ true)
    → Answers s f
        ((require_active >> (require_execution_id >>= λ id. validated_candidate (f id))) s).0
unfolding require_active
active-Answers f s needs =
    guarded-Answers f _ s (active_result s.status)
      (λ e h id. apply-inactive (f id) s e (needs id) h) (identified-Answers f s)

reopen-Answers :
    (now : Timestamp) (reason : String) (s : ExecutionState)
    → Answers s (λ id. execution_reopened now id reason) (reopen_event now reason s).0
unfolding reopen_event require_finished
reopen-Answers now reason s =
    guarded-Answers (λ id. execution_reopened now id reason) _ s (finished_result s.status)
      (λ e h id. apply-unfinished now id reason s e h)
      (identified-Answers (λ id. execution_reopened now id reason) s)

applied :
    (r : Result ExecutionError (Unit {0})) (t : ExecutionState)
    → r ≡ ok tt
    → ((continue (message r) (λ _ t. (ok tt, t)) t) ≡ (ok tt, t))
unfolding message
applied (ok _) t h = refl
applied (err e) t h = cc

one_event :
    (s : ExecutionState) (event : Event) (files : List StagedFile)
    → (apply event s).0 ≡ ok tt
    → apply_decision (record { events = event ∷ []; files = files }) s ≡ (ok tt, (apply event s).1)
unfolding apply_decision apply_events messages
one_event s event files h = applied (apply event s).0 (apply event s).1 h

decide_one-Decides :
    (f : ExecutionId → Event) (s : ExecutionState) (files : List StagedFile)
    (r : Result ExecutionError Event)
    → Answers s f r
    → Decides s f files false (decide_one files r)
unfolding decide_one
decide_one-Decides f s files (ok event) (id, known, same, accepted) =
    let accepted' : (apply event s).0 ≡ ok tt = ap (λ e. (apply e s).0) same ∙ accepted in
    (
      refl,
      (
        id,
        known,
        ap (λ e. e ∷ []) same,
        refl,
        one_event s event files accepted' ∙ ap (λ e. (ok tt, (apply e s).1)) same,
      ),
    )
decide_one-Decides f s files (err x) (inl unknown) = inr (inl unknown)
decide_one-Decides f s files (err x) (inr (id, known, refused)) =
    inr (inr (id, x, known, refused, refl))

attachments-Decides :
    (now : Timestamp) (k i : String) (files : List StagedFile) (s : ExecutionState)
    → Decides s
        (λ id. attachments_added now id k i (map (λ (f : StagedFile). f.file) files))
        files
        (is_empty files)
        (decide_attachments now k i files s)
unfolding decide_attachments add_attachments_event
attachments-Decides now k i [] s = inl (refl, refl)
attachments-Decides now k i (file ∷ files) s =
    let f : ExecutionId → Event =
      λ id. attachments_added now id k i (map (λ (f : StagedFile). f.file) (file ∷ files)) in
    decide_one-Decides f s (file ∷ files) _ (active-Answers f s (λ id. refl))

-- Each action asks for one event, by the table `asked`. In any state, what `decide_action` decides is
-- this event for the state's execution ID, with the request's files if the action adds files (and
-- then there is one at least) and with none if not; and `apply_decision` takes the decision without
-- an error, to the state that `apply` leaves. It answers an error only if an action that adds
-- files has none, if the state has no execution ID, or if `apply` refuses this event, and then with
-- the text of that refusal.
pub decide_action-IsAccepted :
    (now : Timestamp) (note_id : String) (s : ExecutionState) (action : ExecutionAction)
    (files : List StagedFile)
    → IsAccepted now note_id s action files (decide_action now note_id s action files)
unfolding decide_action rename_event add_step_event skip_step_event unskip_step_event
    toggle_checkbox_event record_input_event clear_input_event add_note_event remove_note_event
    assign_attachment_event unassign_attachment_event remove_attachment_file_event
    clear_attachments_event remove_attachment_event complete_event abort_event
decide_action-IsAccepted now note s (ExecutionAction.add_attachment k i _ _ _) files =
    attachments-Decides now k i files s
decide_action-IsAccepted now note s (ExecutionAction.add_attachments k i _) files =
    attachments-Decides now k i files s
decide_action-IsAccepted now note s (ExecutionAction.rename_execution name) files =
    let f = asked now note (ExecutionAction.rename_execution name) files in
    decide_one-Decides f s [] _ (identified-Answers f s)
decide_action-IsAccepted now note s (ExecutionAction.reopen_execution reason) files =
    decide_one-Decides (asked now note (ExecutionAction.reopen_execution reason) files) s [] _
      (reopen-Answers now reason s)
decide_action-IsAccepted now note s action files =
    let f = asked now note action files in
    decide_one-Decides f s [] _ (active-Answers f s (λ id. refl))
