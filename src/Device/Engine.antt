-- ===== src/Device/Engine.antt =====
-- crates/procnote-sync/src/engine.rs: one sync of an execution. The server is reached through a client
-- whose calls act on a world: the directory of the execution, in which others may record while a call
-- waits, and whatever the server is.
pub mod Waiting
pub mod Sent
use procnote.Prelude.{
  ℕ, ◌+◌, String, ◌==◌, Bool, true, false, not, ◌||◌, Option, none, some, List, [], ◌∷◌, ◌++◌, map,
  Result, ok, err, Exec, pure, raise, lift, gets, any, append, contains_key, filter, get, is_empty,
  leb, length, nat_eq, to_string, if◌then◌else◌,
}
use procnote.Template.{ProcedureTemplate}
use procnote.Event.{Event, EventRecord, AttachmentRecord, log_meta}
use procnote.Execution.State.{ExecutionState}
use procnote.App.Sync.Conflicts.{PushOutcome, recorded, duplicate, conflicting, rejected}
use procnote.Device.Monad.{◌>>=◌, ◌>>◌}
use procnote.Store.Outbox.{SyncState, Rejected}
use procnote.Store.Directory.{ExecutionDir}
use procnote.Store.Attached.{has_attachment, store_attachment}
use procnote.Store.Settle.{Outbox, Settlement, files_of, outbox, settle}

pub data ClientError : Type 0 where
  unreachable : String → ClientError
  unauthorized : ClientError
  refused : String → ClientError

pub data SyncError : Type 0 where
  unreachable : String → SyncError
  unauthorized : SyncError
  failed : String → SyncError

-- `impl From<ClientError> for SyncError`
unfoldable pub from_client : ClientError → SyncError
from_client (ClientError.unreachable e) = SyncError.unreachable e
from_client ClientError.unauthorized = SyncError.unauthorized
from_client (ClientError.refused e) = SyncError.failed e

pub record Pulled : Type 0 where
  pub records : List EventRecord
  pub count : ℕ

pub record Synced : Type 0 where
  pub registered : Bool
  pub pushed : ℕ
  pub rejected : ℕ
  pub pulled : ℕ

-- The calls of `DeviceClient` at one execution.
pub record DeviceClient (S : Type 0) : Type 0 where
  pub register :
      String → ProcedureTemplate → List EventRecord → Exec ClientError (ExecutionDir × S) (Unit {0})
  pub upload : List (String × List ℕ) → Exec ClientError (ExecutionDir × S) (List String)
  pub push : List EventRecord → List String → Exec ClientError (ExecutionDir × S) (List PushOutcome)
  pub pull : ℕ → Exec ClientError (ExecutionDir × S) Pulled
  pub attachment : String → Exec ClientError (ExecutionDir × S) (List ℕ)

unfoldable pub is_log_meta : EventRecord → Bool
is_log_meta r = elim r.event [ log_meta _ _ _ ↦ true | _ ↦ false ]

-- The refused events of those that were pushed, with the reasons.
unfoldable pub refusal : EventRecord → PushOutcome → List Rejected
refusal r (rejected reason) = record { entry = r; reason = reason } ∷ []
refusal r _ = []

unfoldable pub refusals : List EventRecord → List PushOutcome → List Rejected
unfolding refusal
refusals (r ∷ pending) (outcome ∷ results) = refusal r outcome ++ refusals pending results
refusals _ _ = []

-- The content of each file, once for a hash.
unfoldable pub read_files :
    List String → List AttachmentRecord → ExecutionDir → Result String (List (String × List ℕ))
read_files seen [] dir = ok []
read_files seen (file ∷ files) dir = elim (any seen (λ s. s == file.sha256)) [
  | true ↦ read_files seen files dir
  | false ↦ elim (get file.path dir.files) [
    | none ↦ err (append file.path ": no such file")
    | some content ↦ elim (read_files (file.sha256 ∷ seen) files dir) [
      | ok rest ↦ ok ((file.filename, content) ∷ rest)
      | err e ↦ err e
    ]
  ]
]

unfoldable pub settlement_of : Bool → Outbox → List PushOutcome → Pulled → Settlement
unfolding refusals
settlement_of registered box results pulled = record {
  registered = registered;
  pending_upto = box.pending_upto;
  rejected = refusals box.pending results;
  pulled = pulled.records;
  pulled_after = length box.records;
}

module _ {S : Type 0} (sha256_hex : List ℕ → String) (id : String) (client : DeviceClient S)
    (procedure : Result String String) (template : Result String ProcedureTemplate) where
  abbrev pub World : Type 0
  World = ExecutionDir × S

  -- `client.….await?`
  unfoldable pub ask : {A : Type 0} → Exec ClientError World A → Exec SyncError World A
  unfolding from_client
  ask call w = let (r, w') = call w in (elim r [ ok a ↦ ok a | err e ↦ err (from_client e) ], w')

  -- `store.…?`
  unfoldable pub here : {A : Type 0} → Exec String ExecutionDir A → Exec SyncError World A
  here call (dir, s) =
      let (r, dir') = call dir in
      (elim r [ ok a ↦ ok a | err e ↦ err (SyncError.failed e) ], (dir', s))

  unfoldable pub look : {A : Type 0} → (ExecutionDir → Result String A) → Exec SyncError World A
  unfolding here
  look f = here (λ dir. (f dir, dir))

  -- Whether the execution had to be registered.
  unfoldable pub register_if : Bool → Outbox → Exec SyncError World Bool
  register_if true box = pure false
  register_if false box = do
    name ← look (λ dir. procedure)
    snapshot ← look (λ dir. template)
    ask (client.register name snapshot (filter (λ r. not (is_log_meta r)) box.records))
    pure true

  unfoldable pub upload_if : List (String × List ℕ) → Exec SyncError World (List String)
  upload_if [] = pure []
  upload_if (file ∷ files) = ask (client.upload (file ∷ files))

  unfoldable pub check_results :
      List EventRecord → List PushOutcome → Exec SyncError World (Unit {0})
  check_results pending results =
      if nat_eq (length results) (length pending)
      then pure tt
      else raise (
          SyncError.failed (
            append "the server answered " (
              append (to_string (length results))
                (append " of " (append (to_string (length pending)) " pushed events")))))

  -- What the server answers to the pending events.
  unfoldable pub push_pending : List EventRecord → Outbox → Exec SyncError World (List PushOutcome)
  push_pending [] box = pure []
  push_pending (r ∷ pending) box = do
    files ← look (read_files [] box.files)
    uploads ← upload_if files
    results ← ask (client.push (r ∷ pending) uploads)
    check_results (r ∷ pending) results
    pure results

  unfoldable pub check_count : ℕ → Pulled → Exec SyncError World (Unit {0})
  check_count after pulled =
      if leb after pulled.count
      then pure tt
      else raise (
          SyncError.failed (
            append "the server has " (
              append (to_string pulled.count) (
                append " log lines but this copy has "
                  (append (to_string after) "; the copies diverged")))))

  unfoldable pub download_one : Bool → AttachmentRecord → Exec SyncError World (Unit {0})
  download_one true file = pure tt
  download_one false file = do
    content ← ask (client.attachment file.path)
    here (store_attachment sha256_hex file content)

  -- The loop of `download_attachments`.
  unfoldable pub download_attachments :
      List String → List AttachmentRecord → Exec SyncError World (Unit {0})
  download_attachments seen [] = pure tt
  download_attachments seen (file ∷ files) = do
    held ← look (λ dir. ok (any seen (λ path. path == file.path) || has_attachment file.path dir))
    download_one held file
    download_attachments (file.path ∷ seen) files

  unfoldable pub sync_execution : Exec SyncError World Synced
  sync_execution = do
    box ← look (outbox id)
    registered ← register_if box.sync.registered box
    results ← push_pending box.pending box
    pulled ← ask (client.pull (length box.records))
    check_count (length box.records) pulled
    download_attachments [] (files_of pulled.records)
    here (settle id (settlement_of registered box results pulled))
    pure (record {
      registered = registered;
      pushed = length box.pending;
      rejected = length (refusals box.pending results);
      pulled = length pulled.records;
    })
