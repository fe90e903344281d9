-- ===== src/Store/Fixture.antt =====
-- A small execution in a directory, for the tests and the examples.
use procnote.Prelude.{ℕ, false, true, none, some, ◌≡◌, refl, List, [], ◌∷◌, ◌++◌, Option, ok, err}
use procnote.Event.{EventMeta, EventRecord, execution_started, execution_completed, pass, log_meta}
use procnote.Execution.State.{ExecutionError, ExecutionState, new}
use procnote.Execution.Lifecycle.{apply_started, apply_finished}
use procnote.Execution.Apply.{apply_event, count_event, apply, replay_event, replay, from_events}
use procnote.Execution.Fixture.{state_of}
use procnote.App.Repository.{message}
use procnote.Store.Outbox.{SyncState}
use procnote.Store.Directory.{ExecutionDir, state_of_records, events_of}
use procnote.Store.Settle.{Settlement}

abbrev pub named : Option ℕ → EventMeta
named id = record { event_id = id; recorded_by = none; device = none }

abbrev pub started : List EventRecord
started =
    record { event = log_meta 0 2 "1.0"; meta = named none }
    ∷ record { event = execution_started 1 7 "P" "title" "1.0"; meta = named none }
    ∷ []

abbrev pub completed : EventRecord
completed = record { event = execution_completed 2 7 pass; meta = named (some 9) }

-- On the server, and on a device where the completion waits.
abbrev pub server_dir : ExecutionDir
server_dir = record {
  log = started;
  sync = none;
  pending = [];
  rejected = [];
  conflict_lines = [];
  files = [];
}

abbrev pub sync : SyncState
sync = record { registered = true; handled = 0 }

abbrev pub device_dir : ExecutionDir
device_dir = record server_dir { sync = some sync; pending = completed ∷ [] }

-- The completion comes back from the server.
abbrev pub settlement : Settlement
settlement = record {
  registered = false;
  pending_upto = 1;
  rejected = [];
  pulled = completed ∷ [];
  pulled_after = 2;
}

abbrev pub finished : ExecutionState
finished = state_of (from_events (events_of (started ++ completed ∷ [])))

pub settlement_replays : state_of_records (started ++ completed ∷ []) ≡ ok finished
unfolding new apply_started apply_finished apply_event count_event apply replay_event replay
    from_events state_of_records message
settlement_replays = refl

pub completes_once : replay_event finished completed.event ≡ err ExecutionError.already_finished
unfolding new apply_started apply_finished apply_event count_event apply replay_event replay
    from_events
completes_once = refl
