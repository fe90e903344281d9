-- ===== src/Store/Directory/Appended.antt =====
-- crates/procnote-app/src/persistence/execution_store.rs: what a directory reads as once records are
-- appended.
use procnote.Prelude.{
  ◌≤◌, ◌≡◌, refl, ap, sym, ◌∙◌, Option, none, some, List, [], ◌∷◌, ◌++◌, arith, Result, ok, err,
  length, drop-append,
}
use mathlib.Core.List.{map-append, append_assoc, append-nil}
use procnote.Event.{Event, EventMeta, EventRecord}
use procnote.Execution.State.{ExecutionError, ExecutionState, new}
use procnote.Execution.Apply.{replay, from_events}
use procnote.App.Repository.{Decision, message, apply_events, apply_decision}
use procnote.Store.Files.{Files}
use procnote.Store.Outbox.{SyncState}
use procnote.Store.Directory.{
  ExecutionDir, unhandled, unhandled_if_linked, current_records, events_of, state_of_records,
  stamped, append_to, append_events,
}
use procnote.Store.Directory.Replayed.{replay-append, apply_events-replays}

-- No more pending lines are dealt with than there are, and only a linked execution has any.
abbrev pub HandledWithin : Option SyncState → List EventRecord → Type 0
HandledWithin none pending = pending ≡ []
HandledWithin (some sync) pending = sync.handled ≤ length pending

abbrev pub IsWellFormed : ExecutionDir → Type 0
IsWellFormed dir = HandledWithin dir.sync dir.pending

abbrev pub with_files : Files → ExecutionDir → ExecutionDir
with_files files dir = record dir { files = files }

append_to-current :
    (sync : Option SyncState) (records : List EventRecord) (dir : ExecutionDir)
    → dir.sync ≡ sync
    → HandledWithin sync dir.pending
    → current_records (append_to sync records dir) ≡ current_records dir ++ records
unfolding current_records append_to unhandled_if_linked unhandled
append_to-current none records dir e h = simp (e, append-nil)
append_to-current (some sync) records dir e h =
    simp (e, append_assoc, drop-append sync.handled dir.pending records h)

-- What is recorded comes behind what the execution has, whether it waits for the server or not.
pub append_events-current :
    (meta : EventMeta) (events : List Event) (dir : ExecutionDir)
    → IsWellFormed dir
    → current_records (append_events meta events dir) ≡ current_records dir ++ stamped meta events
unfolding append_events stamped
append_events-current meta [] dir h = sym (append-nil (current_records dir))
append_events-current meta (event ∷ events) dir h =
    append_to-current dir.sync (stamped meta (event ∷ events)) dir refl h

events_of-stamped :
    (meta : EventMeta) (events : List Event) → events_of (stamped meta events) ≡ events
unfolding stamped
events_of-stamped meta [] = refl
events_of-stamped meta (event ∷ events) = ap (◌∷◌ event) (events_of-stamped meta events)

pub message_ok : {A : Type 0} (r : Result ExecutionError A) (a : A) → message r ≡ ok a → r ≡ ok a
unfolding message
message_ok (ok x) a h = ground arith
message_ok (err e) a h = cc

-- Events that are applied to the state of some records are read behind them.
pub state_of_records-append :
    (records : List EventRecord) (meta : EventMeta) (s : ExecutionState) (d : Decision)
    → state_of_records records ≡ ok s
    → (apply_decision d s).0 ≡ ok tt
    → state_of_records (records ++ stamped meta d.events) ≡ ok (apply_decision d s).1
unfolding state_of_records from_events apply_decision message
state_of_records-append records meta s d h accepted =
    let before : replay new (events_of records) ≡ ok s =
      message_ok (replay new (events_of records)) s h in
    let after : replay new (events_of records ++ d.events) ≡ ok (apply_events d.events s).1 =
      replay-append new s (events_of records) d.events before
      ∙ apply_events-replays s d.events accepted in
    let split : events_of (records ++ stamped meta d.events) ≡ events_of records ++ d.events =
      map-append _ records (stamped meta d.events)
      ∙ ap (◌++◌ (events_of records)) (events_of-stamped meta d.events) in
    rw (split, after) refl
