-- ===== src/Store/Settle.antt =====
-- crates/procnote-app/src/persistence/execution_store.rs: linking an execution to a server, what it has
-- to send, and the outcome of a sync. `show_id` prints the ID of the execution.
pub mod Settled
use procnote.Prelude.{
  ℕ, String, Bool, true, false, ◌||◌, Option, none, some, List, [], ◌∷◌, ◌++◌, map, Result, ok, err,
  Exec, append, drop, is_empty, length, to_string, nat_eq, if◌then◌else◌,
}
use Prim.Native.Nat.{max}
use procnote.Event.{EventRecord, AttachmentRecord}
use procnote.Execution.State.{ExecutionState}
use procnote.App.Sync.{referenced_files}
use procnote.Store.Outbox.{SyncState, Rejected}
use procnote.Store.Directory.{ExecutionDir, unhandled, state_of_records, read_state}

pub record Outbox : Type 0 where
  pub sync : SyncState
  pub records : List EventRecord
  pub pending : List EventRecord
  pub pending_upto : ℕ
  pub files : List AttachmentRecord

pub record Settlement : Type 0 where
  pub registered : Bool
  pub pending_upto : ℕ
  pub rejected : List Rejected
  pub pulled : List EventRecord
  pub pulled_after : ℕ

unfoldable pub link_as : Bool → Option SyncState → ExecutionDir → ExecutionDir
link_as registered (some sync) dir = dir
link_as registered none dir = record dir {
  sync = some (record { registered = registered; handled = 0 });
}

unfoldable pub link : Bool → ExecutionDir → ExecutionDir
unfolding link_as
link registered dir = link_as registered dir.sync dir

unfoldable pub files_of : List EventRecord → List AttachmentRecord
files_of [] = []
files_of (r ∷ records) = referenced_files r.event ++ files_of records

unfoldable pub not_linked : String → String
not_linked id = append "execution " (append id " isn't linked to a server")

unfoldable pub outbox_of : String → Option SyncState → ExecutionDir → Result String Outbox
unfolding unhandled files_of not_linked
outbox_of id none dir = err (not_linked id)
outbox_of id (some sync) dir = ok (record {
  sync = sync;
  records = dir.log;
  pending = unhandled dir sync;
  pending_upto = length dir.pending;
  files = files_of (unhandled dir sync);
})

unfoldable pub outbox : String → ExecutionDir → Result String Outbox
unfolding outbox_of
outbox id dir = outbox_of id dir.sync dir

-- The writes of `settle`.
unfoldable pub settle_log : Settlement → ExecutionDir → ExecutionDir
settle_log st dir = record dir { log = dir.log ++ st.pulled }

unfoldable pub settle_rejected : Settlement → ExecutionDir → ExecutionDir
settle_rejected st dir = record dir { rejected = dir.rejected ++ st.rejected }

unfoldable pub settle_state : SyncState → Settlement → ExecutionDir → ExecutionDir
settle_state sync st dir = record dir {
  sync = some (record {
    registered = sync.registered || st.registered;
    handled = max sync.handled st.pending_upto;
  });
}

-- The writes in their order, each of which is synced to the disk before the next one begins.
unfoldable pub settle_steps : SyncState → Settlement → List (ExecutionDir → ExecutionDir)
unfolding settle_log settle_rejected settle_state
settle_steps sync st = settle_log st ∷ settle_rejected st ∷ settle_state sync st ∷ []

abbrev pub written : List (ExecutionDir → ExecutionDir) → ExecutionDir → ExecutionDir
written [] dir = dir
written (step ∷ steps) dir = written steps (step dir)

unfoldable pub settle_writes : SyncState → Settlement → ExecutionDir → ExecutionDir
unfolding settle_steps
settle_writes sync st dir = written (settle_steps sync st) dir

-- `ExecutionState::from_events(&events).map_err(…)?`
unfoldable pub is_replayed : Result String ExecutionState → Result String (Unit {0})
is_replayed (ok s) = ok tt
is_replayed (err e) = err e

-- The tests before the writes.
unfoldable pub check_lines : List EventRecord → ℕ → List EventRecord → Result String (Unit {0})
unfolding is_replayed
check_lines [] after log = ok tt
check_lines (r ∷ pulled) after log =
    if nat_eq after (length log)
    then is_replayed (state_of_records (log ++ r ∷ pulled))
    else err (
        append "pulled log lines start at "
          (append (to_string after) (append ", but this copy has " (to_string (length log)))))

unfoldable pub check_pulled : Settlement → ExecutionDir → Result String (Unit {0})
unfolding check_lines
check_pulled st dir = check_lines st.pulled st.pulled_after dir.log

unfoldable pub settle_checked :
    SyncState → Settlement → Result String (Unit {0}) → Exec String ExecutionDir ExecutionState
unfolding settle_writes read_state
settle_checked sync st (err e) dir = (err e, dir)
settle_checked sync st (ok _) dir = let dir' = settle_writes sync st dir in (read_state dir', dir')

unfoldable pub settle_linked :
    String → Option SyncState → Settlement → Exec String ExecutionDir ExecutionState
unfolding settle_checked check_pulled not_linked
settle_linked id none st dir = (err (not_linked id), dir)
settle_linked id (some sync) st dir = settle_checked sync st (check_pulled st dir) dir

unfoldable pub settle : String → Settlement → Exec String ExecutionDir ExecutionState
unfolding settle_linked
settle id st dir = settle_linked id dir.sync st dir
