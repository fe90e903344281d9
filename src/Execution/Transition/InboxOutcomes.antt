-- ===== src/Execution/Transition/InboxOutcomes.antt =====
-- crates/procnote-core/src/execution/engine.rs: the arms for the inbox, against `Transition`.
use procnote.Prelude.{
  ℕ, String, ◌==◌, Bool, false, ◌≡◌, refl, ap, subst, ◌∙◌, inl, inr, some, List, [], ◌∷◌, ◌++◌,
  Result, ok, err, arith, get, insert, continue, Bool-cases, Option-cases, AllEntries-get, All,
  ok_or, insert-get_self, codes, position, get_elem?, erase_idx, zero, suc, find?,
}
use procnote.Event.{Timestamp, AttachmentRecord}
use procnote.Execution.State.{
  ExecutionError, active, present, RecordedAttachment, StepState, ExecutionState, from_record_at,
  to_record,
}
use procnote.Execution.Attachments.{is_bad_path, validate_attachment_path, add_attachments_to_step}
use procnote.Execution.AttachmentEvents.{
  apply_attachment_received, apply_attachment_assigned, apply_attachment_unassigned,
  has_attachment_path, take_file, attached_file,
}
use procnote.Execution.Sound.{IsSound, IsSoundState, IsSafeFile}
use procnote.Execution.Relation.{StepMove}
use procnote.Execution.Transition.StepMoves.{StepOutcome, remove_attachment_file_from_step-Moves}
use procnote.Execution.Transition.AttachMoves.{add_attachments_to_step-Moves}
use procnote.Execution.Transition.{Transition, Outcome, write_step}
use procnote.Execution.Transition.Guarded.{
  Leaves, require_active_rule, on_present_step_rule, lift_rule, if_rule, ok_or_cases,
}
use procnote.Execution.Transition.AttachmentOutcomes.{valid_path_safe}

pub apply_attachment_received-Outcome :
    (at : Timestamp) (a : AttachmentRecord) (s : ExecutionState)
    → Leaves (Outcome s) (apply_attachment_received at a) s
unfolding apply_attachment_received
apply_attachment_received-Outcome at a s =
    require_active_rule (Outcome s) _ s (λ e. refl)
      λ run.
        lift_rule (Outcome s) (validate_attachment_path a.path) _ s (λ e. refl)
          λ d good.
            if_rule (Outcome s) (has_attachment_path a.path s) _ _ s (λ _. refl)
              (Transition.receives at a run (valid_path_safe a.path d good))

to_record_safe :
    (at : Timestamp) (file : RecordedAttachment)
    → IsSafeFile file
    → IsSafeFile (from_record_at (to_record file) at)
unfolding from_record_at to_record
to_record_safe at file h = h

All-get :
    (P : RecordedAttachment → Type 0) (files : List RecordedAttachment) (i : ℕ)
    (file : RecordedAttachment)
    → All P files
    → get_elem? files i ≡ some file
    → P file
All-get P [] i file h e = cc
All-get P (x ∷ xs) zero file h e = let q : x ≡ file = ground arith in subst P q h.0
All-get P (x ∷ xs) (suc i) file h e = All-get P xs i file h.1 e

All-find :
    (P : RecordedAttachment → Type 0) (p : RecordedAttachment → Bool)
    (files : List RecordedAttachment) (file : RecordedAttachment)
    → All P files
    → find? p files ≡ some file
    → P file
All-find P p [] file h e = cc
All-find P p (x ∷ xs) file h e = elim (Bool-cases (p x)) [
  | inl here ↦ let q : x ≡ file = ground arith in subst P q h.0
  | inr there ↦ All-find P p xs file h.1 (rw (there, find?) at e)
]

-- The inbox file goes to the step and then out of the inbox.
assign-Outcome :
    (path : String) (index : ℕ) (file : RecordedAttachment) (step_id : String) (s : ExecutionState)
    (step : StepState)
    → s.status ≡ active
    → position (λ f. f.path == path) s.inbox ≡ some index
    → get_elem? s.inbox index ≡ some file
    → get step_id s.steps ≡ some step
    → step.status ≡ present
    → (r : Result ExecutionError (Unit {0})) (step' : StepState) → StepOutcome step r step'
    → Leaves
        (Outcome s)
        (λ t.
          continue r
            (λ _ s'. (ok tt, record s' { inbox = erase_idx s'.inbox index }))
            (write_step step_id step' t))
        s
assign-Outcome path index file step_id s step run at there found here (ok _) step' move =
    Transition.assigns path index file step_id step step' run at there found here move
assign-Outcome path index file step_id s step run at there found here (err e) step' same =
    ap (λ x. record s { steps = x })
      (ap (λ x. insert step_id x s.steps) same ∙ insert-get_self step_id step s.steps found)

pub apply_attachment_assigned-Outcome :
    (at : Timestamp) (step_id input_id path : String) (s : ExecutionState)
    → IsSoundState s
    → Leaves (Outcome s) (apply_attachment_assigned at step_id input_id path) s
unfolding apply_attachment_assigned
apply_attachment_assigned-Outcome at step_id input_id path s h =
    require_active_rule (Outcome s) _ s (λ e. refl)
      λ run.
        lift_rule (Outcome s) (ok_or (position (λ f. f.path == path) s.inbox) _) _ s (λ e. refl)
          λ i at_i.
            lift_rule (Outcome s) (ok_or (get_elem? s.inbox i) _) _ s (λ e. refl)
              λ file there.
                let here : get_elem? s.inbox i ≡ some file = ok_or_cases _ _ there in
                on_present_step_rule (after i) step_id
                  (add_attachments_to_step input_id (to_record file ∷ []) at) s (λ e. refl)
                  λ step found now.
                    assign-Outcome path i file step_id s step run (ok_or_cases _ _ at_i) here found
                      now _ _
                      (add_attachments_to_step-Moves at input_id (to_record file ∷ [])
                        (
                          to_record_safe at file (All-get IsSafeFile s.inbox i file h.inbox here),
                          tt,
                        )
                        step (AllEntries-get _ step_id step s.steps h.steps found).1)
  where
    after : ℕ → Result ExecutionError (Unit {0}) → ExecutionState → Type 0
    after i r t =
        Leaves (Outcome s)
          (λ t'. continue r (λ _ s'. (ok tt, record s' { inbox = erase_idx s'.inbox i })) t') t

-- A failed removal leaves the step; a removal moves it and gives a file with a safe path.
abbrev TakeOutcome : StepState → Result ExecutionError AttachmentRecord → StepState → Type 0
TakeOutcome step (ok file) step' = StepMove step step' × (is_bad_path (codes file.path) ≡ false)
TakeOutcome step (err e) step' = step' ≡ step

removal_outcome :
    (step : StepState) (file : RecordedAttachment)
    → IsSafeFile file
    → (r : Result ExecutionError (Unit {0})) (step' : StepState) → StepOutcome step r step'
    → TakeOutcome step
        (continue r (λ _ (t : StepState). (ok (to_record file), t)) step').0
        (continue r (λ _ (t : StepState). (ok (to_record file), t)) step').1
unfolding to_record
removal_outcome step file safe (ok _) step' move = (move, safe)
removal_outcome step file safe (err e) step' same = same

take_file-outcome :
    (input_id path : String) (step : StepState)
    → IsSound step
    → TakeOutcome step (take_file input_id path step).0 (take_file input_id path step).1
unfolding take_file attached_file
take_file-outcome input_id path step h = elim (Option-cases (get input_id step.attachments)) [
  | inl missing ↦ rw (missing, take_file) refl
  | inr (files, found) ↦ elim (Option-cases (find? (λ f. f.path == path) files)) [
    | inl absent ↦ rw (found, absent, take_file) refl
    | inr (file, there) ↦
        rw (found, there, take_file)
          (removal_outcome step file
            (All-find IsSafeFile _ files file
              (AllEntries-get _ input_id files step.attachments h.attachments found).safe there)
            _ _ (remove_attachment_file_from_step-Moves input_id path step h))
  ]
]

unassign-Outcome :
    (at : Timestamp) (step_id : String) (s : ExecutionState) (step : StepState)
    → s.status ≡ active
    → get step_id s.steps ≡ some step
    → step.status ≡ present
    → (r : Result ExecutionError AttachmentRecord) (step' : StepState) → TakeOutcome step r step'
    → Leaves
        (Outcome s)
        (λ t.
          continue r
            (λ file s'. (ok tt, record s' { inbox = s'.inbox ++ from_record_at file at ∷ [] }))
            (write_step step_id step' t))
        s
unassign-Outcome at step_id s step run found here (ok file) step' (move, safe) =
    Transition.unassigns at file step_id step step' run safe found here move
unassign-Outcome at step_id s step run found here (err e) step' same =
    ap (λ x. record s { steps = x })
      (ap (λ x. insert step_id x s.steps) same ∙ insert-get_self step_id step s.steps found)

pub apply_attachment_unassigned-Outcome :
    (at : Timestamp) (step_id input_id path : String) (s : ExecutionState)
    → IsSoundState s
    → Leaves (Outcome s) (apply_attachment_unassigned at step_id input_id path) s
unfolding apply_attachment_unassigned
apply_attachment_unassigned-Outcome at step_id input_id path s h =
    require_active_rule (Outcome s) _ s (λ e. refl)
      λ run.
        on_present_step_rule after step_id (take_file input_id path) s (λ e. refl)
          λ step found here. unassign-Outcome at step_id s step run found here _ _ (
            take_file-outcome input_id path step
              (AllEntries-get _ step_id step s.steps h.steps found).1)
  where
    after : Result ExecutionError AttachmentRecord → ExecutionState → Type 0
    after r t =
        Leaves (Outcome s)
          (λ t'.
            continue r
              (λ file s'. (ok tt, record s' { inbox = s'.inbox ++ from_record_at file at ∷ [] }))
              t')
          t
