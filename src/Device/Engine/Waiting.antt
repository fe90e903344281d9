-- ===== src/Device/Engine/Waiting.antt =====
-- crates/procnote-sync/src/engine.rs: lemmas on what a sync leaves alone before it settles.
use procnote.Prelude.{
  ℕ, String, ◌==◌, Bool, true, false, ◌||◌, ◌≡◌, refl, ap, sym, ◌∙◌, List, [], ◌∷◌, ◌++◌, Result,
  ok, err, Exec, continue, any, length, nat_eq, leb, if◌then◌else◌,
}
use mathlib.Core.List.{append_assoc, append-nil}
use procnote.Template.{ProcedureTemplate}
use procnote.Event.{EventRecord, AttachmentRecord}
use procnote.Store.Directory.{ExecutionDir}
use procnote.Store.Attached.{
  has_attachment, write_absent, check_download, store_checked, store_attachment,
}
use procnote.Device.Monad.{◌>>=◌}
use procnote.App.Sync.Conflicts.{PushOutcome}
use procnote.Store.Settle.{Outbox}
use procnote.Device.Engine.{
  ClientError, SyncError, DeviceClient, Pulled, read_files, ask, here, look, register_if, upload_if,
  check_results, push_pending, check_count, download_one, download_attachments,
}

-- Others may have recorded: there are more pending lines, and what a sync is about is as it was.
pub record Idle (dir dir' : ExecutionDir) : Type 0 where
  pub more : List EventRecord
  pub log : dir'.log ≡ dir.log
  pub sync : dir'.sync ≡ dir.sync
  pub rejected : dir'.rejected ≡ dir.rejected
  pub pending : dir'.pending ≡ dir.pending ++ more

Idle-refl : (dir : ExecutionDir) → Idle dir dir
Idle-refl dir = record {
  more = [];
  log = refl;
  sync = refl;
  rejected = refl;
  pending = sym (append-nil dir.pending);
}

pub Idle-trans : {a b c : ExecutionDir} → Idle a b → Idle b c → Idle a c
Idle-trans {a} h k = record {
  more = h.more ++ k.more;
  log = k.log ∙ h.log;
  sync = k.sync ∙ h.sync;
  rejected = k.rejected ∙ h.rejected;
  pending = k.pending ∙ ap (λ l. l ++ k.more) h.pending ∙ append_assoc a.pending h.more k.more;
}

-- The call leaves the directory to those who record.
pub record Waits {E S A : Type 0} (call : Exec E (ExecutionDir × S) A) : Type 0 where
  pub idle : (w : ExecutionDir × S) → Idle w.0 (call w).1.0

pub pure-Waits : {E S A : Type 0} (a : A) → Waits {E = E} {S = S} (λ w. (ok a, w))
pure-Waits a = record { idle = λ w. Idle-refl w.0 }

pub raise-Waits : {E S A : Type 0} (e : E) → Waits {E = E} {S = S} {A = A} (λ w. (err e, w))
raise-Waits e = record { idle = λ w. Idle-refl w.0 }

pub >>=-Waits :
    {E S A B : Type 0} {call : Exec E (ExecutionDir × S) A} {next : A → Exec E (ExecutionDir × S) B}
    → Waits call
    → ((a : A) → Waits (next a))
    → Waits (call >>= next)
unfolding ◌>>=◌
>>=-Waits {E} {S} {A} {B} {call} {next} h k = record {
  idle = λ w. Idle-trans (h.idle w) (go (call w).0 (call w).1);
}
  where
    go : (r : Result E A) (w' : ExecutionDir × S) → Idle w'.0 (continue r next w').1.0
    go (ok a) w' = (k a).idle w'
    go (err e) w' = Idle-refl w'.0

-- While a call of the client waits, others only record.
pub record ClientWaits {S : Type 0} (client : DeviceClient S) : Type 0 where
  pub register :
      (name : String) (template : ProcedureTemplate) (records : List EventRecord)
      → Waits (client.register name template records)
  pub upload : (files : List (String × List ℕ)) → Waits (client.upload files)
  pub push :
      (records : List EventRecord) (uploads : List String) → Waits (client.push records uploads)
  pub pull : (after : ℕ) → Waits (client.pull after)
  pub attachment : (path : String) → Waits (client.attachment path)

module _ {S : Type 0} (sha256_hex : List ℕ → String) (id : String) (client : DeviceClient S)
    (procedure : Result String String) (template : Result String ProcedureTemplate)
    (waits : ClientWaits client) where
  abbrev asking :
      {A : Type 0} → Exec ClientError (ExecutionDir × S) A → Exec SyncError (ExecutionDir × S) A
  asking = ask sha256_hex id client procedure template

  pub ask-Waits :
      {A : Type 0} (call : Exec ClientError (ExecutionDir × S) A) → Waits call → Waits (asking call)
  unfolding ask
  ask-Waits call h = record { idle = h.idle }

  pub look-Waits :
      {A : Type 0} (f : ExecutionDir → Result String A)
      → Waits (look sha256_hex id client procedure template f)
  unfolding look here
  look-Waits f = record { idle = λ w. Idle-refl w.0 }

  store_attachment-Idle :
      (file : AttachmentRecord) (content : List ℕ) (dir : ExecutionDir)
      → Idle dir (store_attachment sha256_hex file content dir).1
  unfolding store_attachment store_checked
  store_attachment-Idle file content dir = go (check_download sha256_hex file content)
    where
      written : (b : Bool) → Idle dir (write_absent b file content dir)
      written true = unfold write_absent in Idle-refl dir
      written false =
          unfold write_absent in
          record {
            more = [];
            log = refl;
            sync = refl;
            rejected = refl;
            pending = sym (append-nil dir.pending);
          }

      go : (c : Result String (Unit {0})) → Idle dir (store_checked sha256_hex c file content dir).1
      go (ok _) = written (has_attachment file.path dir)
      go (err e) = Idle-refl dir

  pub register_if-Waits :
      (registered : Bool) (box : Outbox)
      → Waits (register_if sha256_hex id client procedure template registered box)
  unfolding register_if
  register_if-Waits true box = pure-Waits false
  register_if-Waits false box = >>=-Waits (look-Waits (λ dir. procedure)) λ name.
      >>=-Waits (look-Waits (λ dir. template))
        λ snapshot. >>=-Waits (ask-Waits _ (waits.register name snapshot _)) λ _. pure-Waits true

  upload_if-Waits :
      (files : List (String × List ℕ))
      → Waits (upload_if sha256_hex id client procedure template files)
  unfolding upload_if
  upload_if-Waits [] = pure-Waits []
  upload_if-Waits (file ∷ files) = ask-Waits _ (waits.upload (file ∷ files))

  if_Waits :
      {A : Type 0} (b : Bool) (a : A) (e : SyncError)
      → Waits {E = SyncError} {S = S} {A = A} (if b then (λ w. (ok a, w)) else (λ w. (err e, w)))
  if_Waits true a e = pure-Waits a
  if_Waits false a e = raise-Waits e

  check_results-Waits :
      (pending : List EventRecord) (results : List PushOutcome)
      → Waits (check_results sha256_hex id client procedure template pending results)
  unfolding check_results
  check_results-Waits pending results = if_Waits (nat_eq (length results) (length pending)) tt _

  pub push_pending-Waits :
      (pending : List EventRecord) (box : Outbox)
      → Waits (push_pending sha256_hex id client procedure template pending box)
  unfolding push_pending
  push_pending-Waits [] box = pure-Waits []
  push_pending-Waits (r ∷ pending) box = >>=-Waits (look-Waits (read_files [] box.files)) λ files.
      >>=-Waits (upload_if-Waits files) λ uploads.
        >>=-Waits (ask-Waits _ (waits.push (r ∷ pending) uploads))
          λ results. >>=-Waits (check_results-Waits (r ∷ pending) results) λ _. pure-Waits results

  pub check_count-Waits :
      (after : ℕ) (pulled : Pulled)
      → Waits (check_count sha256_hex id client procedure template after pulled)
  unfolding check_count
  check_count-Waits after pulled = if_Waits (leb after pulled.count) tt _

  store_attachment-Waits :
      (file : AttachmentRecord) (content : List ℕ)
      → Waits
          (here sha256_hex id client procedure template (store_attachment sha256_hex file content))
  unfolding here
  store_attachment-Waits file content = record {
    idle = λ w. store_attachment-Idle file content w.0;
  }

  download_one-Waits :
      (held : Bool) (file : AttachmentRecord)
      → Waits (download_one sha256_hex id client procedure template held file)
  unfolding download_one
  download_one-Waits true file = pure-Waits tt
  download_one-Waits false file =
      >>=-Waits (ask-Waits _ (waits.attachment file.path))
        λ content. store_attachment-Waits file content

  pub download_attachments-Waits :
      (seen : List String) (files : List AttachmentRecord)
      → Waits (download_attachments sha256_hex id client procedure template seen files)
  unfolding download_attachments
  download_attachments-Waits seen [] = pure-Waits tt
  download_attachments-Waits seen (file ∷ files) =
      >>=-Waits
        (look-Waits
          (λ dir. ok (any seen (λ path. path == file.path) || has_attachment file.path dir)))
        λ held.
          >>=-Waits (download_one-Waits held file)
            λ _. download_attachments-Waits (file.path ∷ seen) files
