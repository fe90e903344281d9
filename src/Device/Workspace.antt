-- ===== src/Device/Workspace.antt =====
-- crates/procnote-sync/src/engine.rs: syncing every linked execution of a workspace. `sync_one` syncs
-- one, and acts on the workspace and the server; `show_id` prints the ID of an execution.
pub mod Stuck
use procnote.Prelude.{
  ℕ, ◌+◌, String, Bool, Option, none, some, List, [], ◌∷◌, Result, ok, err, Exec, append, continue,
  length, not, if◌then◌else◌,
}
use procnote.Event.{ExecutionId}
use procnote.Store.Outbox.{SyncState}
use procnote.Store.Directory.{ExecutionDir}
use procnote.Store.Settle.{Outbox, outbox}
use procnote.Store.Workspace.{Workspace, linked, existing_dir}
use procnote.Device.Engine.{SyncError, Synced}

module _ {S : Type 0} (show_id : ExecutionId → String)
    (sync_one : ExecutionId → Exec SyncError (Workspace × S) Synced) where
  -- The first failure of an execution is kept.
  unfoldable pub first_failure : Option SyncError → SyncError → Option SyncError
  first_failure none e = some e
  first_failure (some first) e = some first

  -- An arm of the loop: how many are synced, and the first failure; or the error that ends it.
  unfoldable pub count_sync :
      ExecutionId
      → ℕ
      → Option SyncError
      → Result SyncError Synced
      → Result SyncError (ℕ × Option SyncError)
  unfolding first_failure
  count_sync id n failure (ok _) = ok (n + 1, failure)
  count_sync id n failure (err (SyncError.unreachable e)) = err (SyncError.unreachable e)
  count_sync id n failure (err SyncError.unauthorized) = err SyncError.unauthorized
  count_sync id n failure (err (SyncError.failed e)) = ok (
    n,
    first_failure failure
        (SyncError.failed (append "execution " (append (show_id id) (append ": " e)))),
  )

  unfoldable pub finish : ℕ → Option SyncError → Result SyncError ℕ
  finish n none = ok n
  finish n (some e) = err e

  unfoldable pub sync_each :
      List (ExecutionId × SyncState) → ℕ → Option SyncError → Exec SyncError (Workspace × S) ℕ
  unfolding count_sync finish
  sync_each [] n failure w = (finish n failure, w)
  sync_each ((id, _) ∷ rest) n failure w =
      let (r, w') = sync_one id w in
      continue (count_sync id n failure r) (λ p. sync_each rest p.0 p.1) w'

  unfoldable pub sync_listed :
      Result String (List (ExecutionId × SyncState)) → Exec SyncError (Workspace × S) ℕ
  unfolding sync_each
  sync_listed (ok listed) w = sync_each listed 0 none w
  sync_listed (err e) w = (err (SyncError.failed e), w)

  unfoldable pub sync_all : Exec SyncError (Workspace × S) ℕ
  unfolding sync_listed
  sync_all w = sync_listed (linked w.0) w

  unfoldable pub add_waiting : SyncState → Result String Outbox → Result String ℕ → Result String ℕ
  add_waiting sync (err e) rest = err e
  add_waiting sync (ok box) (err e) = err e
  add_waiting sync (ok box) (ok n) =
      ok (length box.pending + (if sync.registered then 0 else 1) + n)

  -- `store.outbox(id)`
  unfoldable pub outbox_in : String → Result String ExecutionDir → Result String Outbox
  outbox_in id (ok dir) = outbox id dir
  outbox_in id (err e) = err e

  unfoldable pub waiting_listed : Workspace → List (ExecutionId × SyncState) → Result String ℕ
  unfolding add_waiting outbox_in
  waiting_listed dirs [] = ok 0
  waiting_listed dirs ((id, sync) ∷ rest) =
      add_waiting sync (outbox_in (show_id id) (existing_dir show_id id dirs))
        (waiting_listed dirs rest)

  unfoldable pub waiting : Workspace → Result String ℕ
  unfolding waiting_listed
  waiting dirs = elim (linked dirs) [ ok listed ↦ waiting_listed dirs listed | err e ↦ err e ]
