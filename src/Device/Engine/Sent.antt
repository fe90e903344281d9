-- ===== src/Device/Engine/Sent.antt =====
-- crates/procnote-sync/src/engine.rs: lemmas on a sync as a whole.
use procnote.Prelude.{
  ℕ, String, Bool, ◌≡◌, subst, some, List, [], ◌∷◌, ◌++◌, Result, ok, Exec, length, filter, not,
  true,
}
use procnote.Template.{ProcedureTemplate}
use procnote.Event.{AttachmentRecord, EventRecord}
use procnote.Execution.State.{ExecutionState}
use procnote.App.Sync.Conflicts.{PushOutcome}
use procnote.Store.Outbox.{SyncState}
use procnote.Store.Directory.{ExecutionDir, unhandled, unhandled_if_linked, read_state}
use procnote.Store.Settle.{Outbox, files_of}
use procnote.Store.Settle.Settled.{Settled}
use procnote.Device.Engine.{
  ClientError, SyncError, DeviceClient, Pulled, refusals, read_files, is_log_meta, ask, look,
  register_if, push_pending, check_count, download_attachments,
}
use procnote.Device.Engine.Waiting.{
  Idle, look-Waits, Waits, ClientWaits, register_if-Waits, push_pending-Waits, ask-Waits,
  check_count-Waits, download_attachments-Waits,
}

module _ {S : Type 0} (sha256_hex : List ℕ → String) (id : String) (client : DeviceClient S)
    (procedure : Result String String) (template : Result String ProcedureTemplate)
    (waits : ClientWaits client) where
  -- The server knows the execution: it did before, or a call has registered it from its log.
  pub data Registered (registered : Bool) (log : List EventRecord)
      : ExecutionDir × S → ExecutionDir × S → Type 0 where
    was_known : registered ≡ true → (w : ExecutionDir × S) → Registered registered log w w
    now_told :
        (name : String) (snapshot : ProcedureTemplate) (w w' : ExecutionDir × S)
        → procedure ≡ ok name
        → template ≡ ok snapshot
        → client.register name snapshot (filter (λ r. not (is_log_meta r)) log) w ≡ (ok tt, w')
        → Registered registered log w w'

  -- The tokens of the uploaded files, which one call gives, or none where there are no files.
  pub data Uploaded
      : List (String × List ℕ) → List String → ExecutionDir × S → ExecutionDir × S → Type 0 where
    no_files : (w : ExecutionDir × S) → Uploaded [] [] w w
    uploaded :
        (file : String × List ℕ) (files : List (String × List ℕ)) (uploads : List String)
        (w w' : ExecutionDir × S)
        → client.upload (file ∷ files) w ≡ (ok uploads, w')
        → Uploaded (file ∷ files) uploads w w'

  -- The server's answer to the pending events: none is asked for where none are pending; otherwise it is
  -- that of one call which pushes all of them, with the tokens of the files that they refer to, and has
  -- an outcome for each.
  pub data Answered (pending : List EventRecord)
      : List PushOutcome → ExecutionDir × S → ExecutionDir × S → Type 0 where
    nothing : pending ≡ [] → (w : ExecutionDir × S) → Answered pending [] w w
    pushed :
        (results : List PushOutcome) (files : List (String × List ℕ)) (uploads : List String)
        (w u v : ExecutionDir × S)
        → read_files [] (files_of pending) w.0 ≡ ok files
        → Uploaded files uploads w u
        → client.push pending uploads u ≡ (ok results, v)
        → length results ≡ length pending
        → Answered pending results w v

  -- What a sync that went through did: the calls that it made, one behind the other, and what their
  -- answers have become in the directory.
  pub record Sent (s : S) (dir dir' : ExecutionDir) : Type 0 where
    pub sync : SyncState
    pub linked : dir.sync ≡ some sync
    pub known : ExecutionDir × S
    pub registered : Registered sync.registered dir.log (dir, s) known
    pub results : List PushOutcome
    pub told : ExecutionDir × S
    pub answered : Answered (unhandled dir sync) results known told
    pub pulled : List EventRecord
    pub total : ℕ
    pub asked : ExecutionDir × S
    pub pull :
        client.pull (length dir.log) told ≡ (ok (record { records = pulled; count = total }), asked)
    pub more : List EventRecord
    pub log : dir'.log ≡ dir.log ++ pulled
    pub rejected : dir'.rejected ≡ dir.rejected ++ refusals (unhandled dir sync) results
    pub pending : dir'.pending ≡ dir.pending ++ more
    pub marks : SyncState
    pub marked : dir'.sync ≡ some marks
    pub in_server : marks.registered ≡ true
    pub waiting : unhandled_if_linked dir' dir'.sync ≡ more
    pub state : ExecutionState
    pub reads : read_state dir' ≡ ok state

  abbrev pushing : List EventRecord → Outbox → Exec SyncError (ExecutionDir × S) (List PushOutcome)
  pushing = push_pending sha256_hex id client procedure template

  abbrev looking :
      {A : Type 0} (f : ExecutionDir → Result String A)
      → Waits (look sha256_hex id client procedure template f)
  looking = look-Waits sha256_hex id client procedure template waits

  abbrev registering :
      (registered : Bool) (box : Outbox)
      → Waits (register_if sha256_hex id client procedure template registered box)
  registering = register_if-Waits sha256_hex id client procedure template waits

  abbrev sending : (pending : List EventRecord) (box : Outbox) → Waits (pushing pending box)
  sending = push_pending-Waits sha256_hex id client procedure template waits

  abbrev asks :
      {A : Type 0} {call : Exec ClientError (ExecutionDir × S) A}
      → Waits call
      → Waits (ask sha256_hex id client procedure template call)
  asks {A} {call} = ask-Waits sha256_hex id client procedure template waits call

  abbrev counting :
      (after : ℕ) (pulled : Pulled)
      → Waits (check_count sha256_hex id client procedure template after pulled)
  counting = check_count-Waits sha256_hex id client procedure template waits

  abbrev downloading :
      (seen : List String) (files : List AttachmentRecord)
      → Waits (download_attachments sha256_hex id client procedure template seen files)
  downloading = download_attachments-Waits sha256_hex id client procedure template waits

  after :
      {A : Type 0} {call : Exec SyncError (ExecutionDir × S) A} {w u : ExecutionDir × S}
      {r : Result SyncError A}
      → Waits call
      → call w ≡ (r, u)
      → Idle w.0 u.0
  after {A} {call} {w} h e = subst (λ x. Idle w.0 x.1.0) e (h.idle w)
