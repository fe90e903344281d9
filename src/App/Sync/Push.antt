-- ===== src/App/Sync/Push.antt =====
-- crates/procnote-app/src/sync.rs and repository.rs: pushing an event to an execution in a repository,
-- which is an interface of operations on the stored execution. `show_id` prints a UUID.
pub mod Laws
pub mod Again
pub mod Exclusive
pub mod Grows
use procnote.Prelude.{
  ℕ, String, Bool, true, false, Option, none, some, List, [], ◌∷◌, Result, ok, err, Exec, any,
  append, if◌then◌else◌,
}
use procnote.Event.{Timestamp, ExecutionId, EventMeta, EventRecord}
use procnote.Execution.State.{ExecutionState}
use procnote.App.Repository.{StagedFile, Decision, Decide}
use procnote.App.Sync.{Pushed, record_event, conflict, decide_pushed}
use procnote.App.Sync.Conflicts.{
  Conflict, Resolution, PushOutcome, recorded, duplicate, conflicting, rejected,
}
use procnote.Store.ConflictLog.{is_of}

-- `ExecutionRepository`, at one execution: the operations that a push and a resolution need.
pub record Repository (S : Type 0) : Type 0 where
  pub record_in :
      EventMeta
      → Decide PushOutcome
      → S
      → PushOutcome
      → (Result String ExecutionState × S) × PushOutcome
  pub conflicts : S → List Conflict
  pub add_conflict : Conflict → Exec String S (Unit {0})
  pub resolve_conflict : ℕ → Resolution → Exec String S (Unit {0})

-- The arms of the closure that `push_event` decides with.
unfoldable pub outcome_of : Result String Pushed → Result String Decision × PushOutcome
outcome_of (ok (record_event d)) = (ok d, recorded)
outcome_of (ok (conflict reason files)) =
    (ok (record { events = []; files = files }), conflicting reason)
outcome_of (err reason) = (ok (record { events = []; files = [] }), rejected reason)

unfoldable pub conflict_of : EventRecord → String → Timestamp → Conflict
conflict_of r reason now = record { entry = r; reason = reason; received_at = now; resolved = none }

module _ {S : Type 0} (repo : Repository S) where
  unfoldable pub kept : PushOutcome → Result String (Unit {0}) → Result String PushOutcome
  kept outcome (ok _) = ok outcome
  kept outcome (err e) = err e

  unfoldable pub keep_conflict : EventRecord → Timestamp → PushOutcome → Exec String S PushOutcome
  unfolding kept conflict_of
  keep_conflict r now (conflicting reason) s =
      let (x, s') = repo.add_conflict (conflict_of r reason now) s in
      (kept (conflicting reason) x, s')
  keep_conflict r now recorded s = (ok recorded, s)
  keep_conflict r now duplicate s = (ok duplicate, s)
  keep_conflict r now (rejected reason) s = (ok (rejected reason), s)

  unfoldable pub push_recorded :
      EventRecord
      → Timestamp
      → Result String ExecutionState
      → PushOutcome
      → Exec String S PushOutcome
  unfolding keep_conflict
  push_recorded r now (ok _) outcome s = keep_conflict r now outcome s
  push_recorded r now (err e) outcome s = (err e, s)

  unfoldable pub has_conflict : ℕ → S → Bool
  unfolding is_of
  has_conflict event_id s = any (repo.conflicts s) (is_of event_id)

  module _ (show_id : ExecutionId → String) (execution_id : ExecutionId) where
    unfoldable pub decide_push : EventRecord → List StagedFile → Decide PushOutcome
    unfolding outcome_of
    decide_push r uploaded state outcome =
        outcome_of (decide_pushed show_id execution_id state r uploaded)

    unfoldable pub push_unless :
        Bool → EventRecord → List StagedFile → Timestamp → Exec String S PushOutcome
    unfolding decide_push push_recorded
    push_unless true r uploaded now s = (ok duplicate, s)
    push_unless false r uploaded now s =
        let ((x, s'), outcome) = repo.record_in r.meta (decide_push r uploaded) s duplicate in
        push_recorded r now x outcome s'

    unfoldable pub push_named :
        Option ℕ → EventRecord → List StagedFile → Timestamp → Exec String S PushOutcome
    unfolding push_unless has_conflict
    push_named none r uploaded now s = (ok (rejected "pushed events need an event_id"), s)
    push_named (some event_id) r uploaded now s =
        push_unless (has_conflict event_id s) r uploaded now s

    unfoldable pub push_event :
        EventRecord → List StagedFile → Timestamp → Exec String S PushOutcome
    unfolding push_named
    push_event r uploaded now s = push_named r.meta.event_id r uploaded now s

  -- `resolve_conflict` of sync.rs
  unfoldable pub resolve_conflict : (ℕ → String) → ℕ → Resolution → Exec String S (Unit {0})
  unfolding has_conflict
  resolve_conflict show_id event_id resolution s =
      if has_conflict event_id s
      then repo.resolve_conflict event_id resolution s
      else (err (append "no conflict for event " (show_id event_id)), s)
