-- ===== src/App/Received.antt =====
-- crates/procnote-app/src/repository.rs: lemmas on one round of `decide_receive`.
pub mod Known
pub mod Batch
use procnote.Prelude.{
  ℕ, String, ◌==◌, eq_refl, Bool, true, false, ◌||◌, ◌≡◌, refl, ap, sym, subst, ◌∙◌, inl, inr,
  Option, none, some, List, [], ◌∷◌, ◌++◌, Result, ok, err, arith, ok_or, continue, pure, ◌>>=◌,
  ◌>>◌, any, Bool-cases, if◌then◌else◌,
}
use procnote.Event.{Timestamp, ExecutionId, AttachmentRecord, Event, attachment_received}
use procnote.Execution.State.{
  ExecutionError, RecordedAttachment, ExecutionState, Action, from_record_at,
}
use procnote.Execution.Apply.{apply, apply_event, count_event, transition_event_at}
use procnote.Execution.AttachmentEvents.{apply_attachment_received, has_attachment_path, has_path}
use procnote.Execution.Attachments.{validate_attachment_path}
use procnote.Execution.Actions.{
  require_execution_id, validated_candidate, receive_attachment_event, perform,
}
use procnote.Execution.Actions.Checked.{IsBuilder, builder-Checked, Checked}
use procnote.Execution.Transition.Guarded.{Leaves, require_active_rule, lift_rule, if_rule}
use procnote.App.Repository.{StagedFile, has_content, is_known}

-- The file `a` was put at the end of the inbox, and that was counted.
pub record IsReceived (a : AttachmentRecord) (s s' : ExecutionState) : Type 0 where
  pub at : Timestamp
  pub updated_at : Option Timestamp
  pub applied_events : ℕ
  pub after : s' ≡ record s {
    inbox = s.inbox ++ from_record_at a at ∷ [];
    updated_at = updated_at;
    applied_events = applied_events;
  }

module _ (now : Timestamp) (a : AttachmentRecord) (s : ExecutionState) where
  abbrev Received : Result ExecutionError (Unit {0}) → ExecutionState → Type 0
  Received (ok _) t = t ≡ record s { inbox = s.inbox ++ from_record_at a now ∷ [] }
  Received (err e) t = Unit

  apply-Received : Leaves Received (apply_attachment_received now a) s
  unfolding apply_attachment_received
  apply-Received =
      require_active_rule Received _ s (λ e. tt)
        λ run.
          lift_rule Received (validate_attachment_path a.path) _ s (λ e. tt)
            λ d good. if_rule Received (has_attachment_path a.path s) _ _ s (λ _. tt) (λ _. refl)

  counted-Received :
      (event : Event) (r : Result ExecutionError (Unit {0})) (t : ExecutionState)
      → Received r t
      → (continue r (λ _. count_event event) t).0 ≡ ok tt
      → IsReceived a s (continue r (λ _. count_event event) t).1
  unfolding count_event
  counted-Received event (err e) t h accepted = cc
  counted-Received event (ok _) t h accepted = record {
    at = now;
    updated_at = transition_event_at event;
    applied_events = _;
    after = ap (λ (x : ExecutionState). (count_event event x).1) h;
  }

  apply-IsReceived :
      (id : ExecutionId)
      → (apply (attachment_received now id a) s).0 ≡ ok tt
      → IsReceived a s (apply (attachment_received now id a) s).1
  unfolding apply apply_event
  apply-IsReceived id accepted =
      counted-Received (attachment_received now id a) _ _ apply-Received accepted

  -- The event that `receive_attachment_event` builds.
  abbrev Builds : Result ExecutionError Event → ExecutionState → Type 0
  Builds (ok event) t = (id : ExecutionId) × (event ≡ attachment_received now id a)
  Builds (err e) t = Unit

  candidate_built :
      (id : ExecutionId) → Leaves Builds (validated_candidate (attachment_received now id a)) s
  unfolding validated_candidate
  candidate_built id = split (apply (attachment_received now id a) s).0
    where
      split :
          (r : Result ExecutionError (Unit {0}))
          → Builds (elim r [ ok _ ↦ ok (attachment_received now id a) | err e ↦ err e ]) s
      split (ok _) = (id, refl)
      split (err e) = tt

  identified_built :
      (id : Option ExecutionId)
      → Leaves Builds
          (λ t.
            continue
              (ok_or id ExecutionError.not_started)
              (λ id. validated_candidate (attachment_received now id a))
              t)
          s
  identified_built none = tt
  identified_built (some id) = candidate_built id

  receive_built : Leaves Builds (receive_attachment_event now a) s
  unfolding receive_attachment_event require_execution_id
  receive_built = require_active_rule Builds _ s (λ e. tt) (λ run. identified_built s.execution_id)

  -- What the loop has after one file.
  abbrev pub Step : Result ExecutionError Event → ExecutionState → Type 0
  Step (ok event) t = (apply event s ≡ (ok tt, t)) × IsReceived a s t
  Step (err e) t = Unit

  stepped :
      (event : Event) (r : Result ExecutionError (Unit {0})) (t : ExecutionState)
      → r ≡ ok tt
      → apply event s ≡ (r, t)
      → IsReceived a s t
      → Step (continue r (λ _. pure event) t).0 (continue r (λ _. pure event) t).1
  stepped event (ok _) t accepted e h = (e, h)
  stepped event (err x) t accepted e h = cc

  performed :
      (r : Result ExecutionError Event) (t : ExecutionState)
      → Checked s r t
      → Builds r t
      → Step
          (continue r (λ event. apply event >> pure event) t).0
          (continue r (λ event. apply event >> pure event) t).1
  performed (err e) t h b = tt
  performed (ok event) t (same, accepted, replays) (id, e) =
      subst (λ x. Step ((apply event >> pure event) x).0 ((apply event >> pure event) x).1)
        (sym same)
        (stepped event (apply event s).0 (apply event s).1 accepted refl (
          subst (λ x. (apply x s).0 ≡ ok tt → IsReceived a s (apply x s).1) (sym e)
            (apply-IsReceived id) accepted))

  pub receive_step :
      Step
        (perform (receive_attachment_event now a) s).0
        (perform (receive_attachment_event now a) s).1
  unfolding perform
  receive_step =
      performed (receive_attachment_event now a s).0 (receive_attachment_event now a s).1
        (builder-Checked (IsBuilder.receives now a) s) receive_built
