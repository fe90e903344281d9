-- ===== src/Device/Workspace/Stuck.antt =====
-- crates/procnote-sync/src/engine.rs: lemmas on a workspace with an execution that cannot be read.
use procnote.Prelude.{String, ◌≡◌, ap, some, List, ◌∷◌, ◌++◌, ok, err, Exec}
use procnote.Event.{ExecutionId, EventRecord}
use procnote.Execution.State.{ExecutionError, ExecutionState}
use procnote.Execution.Describe.{describe}
use procnote.Execution.Apply.{replay_event}
use procnote.Store.Outbox.{SyncState}
use procnote.Store.Directory.{ExecutionDir, unhandled, state_of_records, read_state}
use procnote.Store.Settle.{Settlement, settle_log}
use procnote.Store.Workspace.{Workspace}
use procnote.Store.Workspace.Stuck.{interrupted-unreadable, linked-unreadable}
use procnote.Device.Engine.{SyncError, Synced}
use procnote.Device.Workspace.{sync_listed, sync_all}

-- A crash behind the first write of a settlement can stop all syncing. If the lines that were pulled
-- bring back an event that is still pending and that is refused behind them, which is so for each
-- event that can be recorded only once, the execution cannot be read; and then a sync of the workspace,
-- whatever else is in it, fails before it asks the server anything, and changes nothing.
pub sync_all-interrupted :
    {S : Type 0} (show_id : ExecutionId → String)
    (sync_one : ExecutionId → Exec SyncError (Workspace × S) Synced) (st : Settlement)
    (dir : ExecutionDir) (sync : SyncState) (r : EventRecord) (rest : List EventRecord)
    (s : ExecutionState) (e : ExecutionError) (before later : Workspace) (server : S)
    → dir.sync ≡ some sync
    → unhandled dir sync ≡ r ∷ rest
    → state_of_records (dir.log ++ st.pulled) ≡ ok s
    → replay_event s r.event ≡ err e
    → (read_state (settle_log st dir) ≡ err (describe e))
      × ((reason : String) × (sync_all show_id sync_one
              (before ++ settle_log st dir ∷ later, server)
            ≡ (err (SyncError.failed reason), (before ++ settle_log st dir ∷ later, server))))
unfolding sync_all sync_listed
sync_all-interrupted show_id sync_one st dir sync r rest s e before later server there waits replays
      refused =
    let unreadable = interrupted-unreadable st dir sync r rest s e there waits replays refused in
    let (reason, h) =
      linked-unreadable before later (settle_log st dir) sync (describe e) (linked_still there)
        unreadable in
    (
      unreadable,
      (
        reason,
        ap (λ x. sync_listed show_id sync_one x (before ++ settle_log st dir ∷ later, server)) h,
      ),
    )
  where
    linked_still : dir.sync ≡ some sync → (settle_log st dir).sync ≡ some sync
    linked_still h = unfold settle_log in h
