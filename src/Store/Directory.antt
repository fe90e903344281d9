-- ===== src/Store/Directory.antt =====
-- crates/procnote-app/src/persistence/execution_store.rs: the directory of an execution, and what is
-- recorded in it under the lock of its log. The texts of its files are taken as what is read of them.
pub mod Replayed
pub mod Appended
pub mod Recorded
use procnote.Prelude.{
  ℕ, String, ◌==◌, Bool, true, false, Option, none, some, List, [], ◌∷◌, ◌++◌, map, Result, ok, err,
  Exec, any, drop, is_empty, is_some, if◌then◌else◌,
}
use procnote.Event.{Event, EventMeta, EventRecord}
use procnote.Execution.State.{ExecutionState}
use procnote.Execution.Apply.{from_events}
use procnote.App.Repository.{StagedFile, Decision, Decide, message, apply_decision}
use procnote.Store.Files.{Files, store_all}
use procnote.Store.Outbox.{SyncState, Rejected, id_eq}
use procnote.Store.ConflictLog.{Line}

-- `events.jsonl`, `sync.json`, `pending.jsonl`, `rejected.jsonl`, `conflicts.jsonl` and `attachments/`.
pub record ExecutionDir : Type 0 where
  pub log : List EventRecord
  pub sync : Option SyncState
  pub pending : List EventRecord
  pub rejected : List Rejected
  pub conflict_lines : List Line
  pub files : Files

unfoldable pub unhandled : ExecutionDir → SyncState → List EventRecord
unhandled dir sync = drop sync.handled dir.pending

unfoldable pub unhandled_if_linked : ExecutionDir → Option SyncState → List EventRecord
unfolding unhandled
unhandled_if_linked dir none = []
unhandled_if_linked dir (some sync) = unhandled dir sync

-- The log, and behind it the pending lines of a linked execution that the server has not dealt with.
unfoldable pub current_records : ExecutionDir → List EventRecord
unfolding unhandled_if_linked
current_records dir = dir.log ++ unhandled_if_linked dir dir.sync

abbrev pub events_of : List EventRecord → List Event
events_of = map (λ r. r.event)

unfoldable pub state_of_records : List EventRecord → Result String ExecutionState
unfolding message
state_of_records records = message (from_events (events_of records))

unfoldable pub read_state : ExecutionDir → Result String ExecutionState
unfolding state_of_records current_records
read_state dir = state_of_records (current_records dir)

unfoldable pub is_retry : List EventRecord → EventMeta → Bool
unfolding id_eq
is_retry records meta =
    if is_some meta.event_id then any records (λ r. id_eq r.meta.event_id meta.event_id) else false

unfoldable pub stamped : EventMeta → List Event → List EventRecord
stamped meta events = map (λ event. record { event = event; meta = meta }) events

-- The log of a linked execution is the server's.
unfoldable pub append_to : Option SyncState → List EventRecord → ExecutionDir → ExecutionDir
append_to none records dir = record dir { log = dir.log ++ records }
append_to (some sync) records dir = record dir { pending = dir.pending ++ records }

unfoldable pub append_events : EventMeta → List Event → ExecutionDir → ExecutionDir
unfolding append_to stamped
append_events meta events dir =
    if is_empty events then dir else append_to dir.sync (stamped meta events) dir

module _ (sha256_hex : List ℕ → String) (read_source : String → Result String (List ℕ))
    (show_path : String → String) where
  unfoldable pub record_stored :
      EventMeta
      → Decision
      → ExecutionState
      → Result String (Unit {0})
      → Exec String ExecutionDir ExecutionState
  unfolding append_events
  record_stored meta d s (err e) dir = (err e, dir)
  record_stored meta d s (ok _) dir = (ok s, append_events meta d.events dir)

  unfoldable pub record_applied :
      EventMeta
      → Decision
      → ExecutionState
      → Result String (Unit {0})
      → Exec String ExecutionDir ExecutionState
  unfolding record_stored
  record_applied meta d s (err e) dir = (err e, dir)
  record_applied meta d s (ok _) dir =
      let (r, files) = store_all sha256_hex read_source show_path d.files dir.files in
      record_stored meta d s r (record dir { files = files })

  unfoldable pub record_decided :
      EventMeta → ExecutionState → Result String Decision → Exec String ExecutionDir ExecutionState
  unfolding record_applied
  record_decided meta s (err e) dir = (err e, dir)
  record_decided meta s (ok d) dir =
      let (r, s') = apply_decision d s in record_applied meta d s' r dir

  module _ {O : Type 0} (meta : EventMeta) (decide : Decide O) where
    unfoldable pub record_unless :
        Bool → ExecutionState → ExecutionDir → O → (Result String ExecutionState × ExecutionDir) × O
    unfolding record_decided
    record_unless true s dir o = ((ok s, dir), o)
    record_unless false s dir o = let (r, o') = decide s o in (record_decided meta s r dir, o')

    unfoldable pub record_on :
        Result String ExecutionState
        → ExecutionDir
        → O
        → (Result String ExecutionState × ExecutionDir) × O
    unfolding record_unless is_retry current_records
    record_on (err e) dir o = ((err e, dir), o)
    record_on (ok s) dir o = record_unless (is_retry (current_records dir) meta) s dir o

    -- `ExecutionStore::record`
    unfoldable pub record_in : ExecutionDir → O → (Result String ExecutionState × ExecutionDir) × O
    unfolding record_on read_state
    record_in dir o = record_on (read_state dir) dir o
