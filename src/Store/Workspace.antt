-- ===== src/Store/Workspace.antt =====
-- crates/procnote-app/src/persistence/execution_store.rs: the published execution directories of a
-- workspace, in the order in which the file system lists them.
pub mod Stuck
use procnote.Prelude.{
  ℕ, String, Bool, true, false, Option, none, some, List, [], ◌∷◌, Result, ok, err, any, append,
  filter, nat_eq, if◌then◌else◌,
}
use procnote.Event.{ExecutionId, Event, EventRecord, execution_started}
use procnote.Execution.State.{ExecutionState}
use procnote.Store.Outbox.{SyncState}
use procnote.Store.Directory.{ExecutionDir, read_state, events_of}

abbrev pub Workspace : Type 0
Workspace = List ExecutionDir

unfoldable pub starts : ExecutionId → Event → Bool
starts id (execution_started _ started _ _ _) = nat_eq started id
starts id _ = false

-- `find_execution_dir`, over the matches.
unfoldable pub only_match : String → List ExecutionDir → Result String (Option ExecutionDir)
only_match id [] = ok none
only_match id (dir ∷ []) = ok (some dir)
only_match id (dir ∷ other ∷ more) =
    err (append "multiple execution directories contain execution id " id)

-- `show_id` prints the ID.
unfoldable pub find_execution_dir :
    (ExecutionId → String) → ExecutionId → Workspace → Result String (Option ExecutionDir)
unfolding starts only_match
find_execution_dir show_id id dirs =
    only_match (show_id id) (filter (λ dir. any (events_of dir.log) (starts id)) dirs)

unfoldable pub found_dir : String → Result String (Option ExecutionDir) → Result String ExecutionDir
found_dir id (ok (some dir)) = ok dir
found_dir id (ok none) = err (append "Execution not found: " id)
found_dir id (err e) = err e

unfoldable pub existing_dir :
    (ExecutionId → String) → ExecutionId → Workspace → Result String ExecutionDir
unfolding find_execution_dir found_dir
existing_dir show_id id dirs = found_dir (show_id id) (find_execution_dir show_id id dirs)

unfoldable pub add_linked :
    Option ExecutionId
    → SyncState
    → Result String (List (ExecutionId × SyncState))
    → Result String (List (ExecutionId × SyncState))
add_linked none sync rest = rest
add_linked (some id) sync (ok linked) = ok ((id, sync) ∷ linked)
add_linked (some id) sync (err e) = err e

unfoldable pub linked_state :
    SyncState
    → Result String ExecutionState
    → Result String (List (ExecutionId × SyncState))
    → Result String (List (ExecutionId × SyncState))
unfolding add_linked
linked_state sync (ok s) rest = add_linked s.execution_id sync rest
linked_state sync (err e) rest = err e

unfoldable pub linked_dir :
    Option SyncState
    → ExecutionDir
    → Result String (List (ExecutionId × SyncState))
    → Result String (List (ExecutionId × SyncState))
unfolding linked_state
linked_dir none dir rest = rest
linked_dir (some sync) dir rest = linked_state sync (read_state dir) rest

-- The linked executions; one that cannot be read is an error for all.
unfoldable pub linked : Workspace → Result String (List (ExecutionId × SyncState))
unfolding linked_dir
linked [] = ok []
linked (dir ∷ dirs) = linked_dir dir.sync dir (linked dirs)
