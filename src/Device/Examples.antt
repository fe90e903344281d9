-- ===== src/Device/Examples.antt =====
-- The theorems on the small execution on a device, and a server that answers each call.
use procnote.Prelude.{ℕ, String, false, ◌≡◌, refl, List, [], ◌∷◌, Result, ok, err, Exec}
use procnote.Template.{ProcedureTemplate}
use procnote.Event.{ExecutionId}
use procnote.Execution.State.{ExecutionError}
use procnote.Execution.Describe.{describe}
use procnote.App.Sync.Conflicts.{recorded}
use procnote.Store.Directory.{ExecutionDir, unhandled, read_state}
use procnote.Store.Settle.{settle_log}
use procnote.Store.Workspace.{Workspace}
use procnote.Store.Fixture.{
  completed, device_dir, sync, settlement, finished, settlement_replays, completes_once,
}
use procnote.Device.Engine.{SyncError, DeviceClient, Synced, sync_execution}
use procnote.Device.Engine.Sent.{Sent}
use procnote.Device.Workspace.{sync_all}
use procnote.Device.Workspace.Stuck.{sync_all-interrupted}

abbrev World : Type 0
World = ExecutionDir × Unit {0}

abbrev client : DeviceClient (Unit {0})
client = record {
  register = λ name template records w. (ok tt, w);
  upload = λ files w. (ok [], w);
  push = λ records uploads w. (ok (recorded ∷ []), w);
  pull = λ after w. (ok (record { records = completed ∷ []; count = 3 }), w);
  attachment = λ path w. (ok [], w);
}

abbrev hash : List ℕ → String
hash content = "h"

abbrev none_here : Result String ProcedureTemplate
none_here = err "no template"

abbrev syncing : Exec SyncError World Synced
syncing = sync_execution hash "7" client (err "no procedure") none_here

abbrev synced : Synced
synced = record { registered = false; pushed = 1; rejected = 0; pulled = 1 }

abbrev sync_one : ExecutionId → Exec SyncError (Workspace × Unit {0}) Synced
sync_one id w = (ok synced, w)

waiting_there : unhandled device_dir sync ≡ completed ∷ []
unfolding unhandled
waiting_there = refl

sync_all-interrupted_example :
    (read_state (settle_log settlement device_dir) ≡ err (describe ExecutionError.already_finished))
    × ((reason : String) × (sync_all (λ _. "7") sync_one (settle_log settlement device_dir ∷ [], tt)
          ≡ (err (SyncError.failed reason), (settle_log settlement device_dir ∷ [], tt))))
sync_all-interrupted_example =
    sync_all-interrupted (λ _. "7") sync_one settlement device_dir sync completed [] finished
      ExecutionError.already_finished [] [] tt refl waiting_there settlement_replays completes_once
