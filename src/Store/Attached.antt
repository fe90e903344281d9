-- ===== src/Store/Attached.antt =====
-- crates/procnote-app/src/persistence/execution_store.rs: attachments that others recorded.
use procnote.Prelude.{
  ℕ, String, ◌==◌, Bool, true, false, not, ◌&&◌, List, [], ◌∷◌, Result, ok, err, Exec, any, append,
  codes, contains_key, insert, nat_eq, if◌then◌else◌,
}
use procnote.Event.{AttachmentRecord}
use procnote.Execution.Attachments.{slash, split, text_eq}
use procnote.Store.Directory.{ExecutionDir}

-- `text.starts_with(prefix)`
unfoldable pub starts_with : List ℕ → List ℕ → Bool
starts_with text [] = true
starts_with [] (c ∷ prefix) = false
starts_with (x ∷ text) (c ∷ prefix) = nat_eq x c && starts_with text prefix

-- Below `attachments/`, where a component that is not a name can only be `..`.
unfoldable pub is_attachment_path : String → Bool
unfolding starts_with
is_attachment_path path =
    starts_with (codes path) (codes "attachments/")
    && not (any (split slash (codes path)) (λ segment. text_eq segment (codes "..")))

-- `store.read_attachment(…).is_ok()`
unfoldable pub has_attachment : String → ExecutionDir → Bool
has_attachment path dir = contains_key path dir.files

unfoldable pub write_absent : Bool → AttachmentRecord → List ℕ → ExecutionDir → ExecutionDir
write_absent true file content dir = dir
write_absent false file content dir = record dir { files = insert file.path content dir.files }

module _ (sha256_hex : List ℕ → String) where
  unfoldable pub check_download : AttachmentRecord → List ℕ → Result String (Unit {0})
  check_download file content =
      if sha256_hex content == file.sha256
      then if is_attachment_path file.path
        then ok tt
        else err (append "invalid attachment path: " file.path)
      else err (append "downloaded content of " (append file.path " doesn't match its hash"))

  unfoldable pub store_checked :
      Result String (Unit {0}) → AttachmentRecord → List ℕ → Exec String ExecutionDir (Unit {0})
  unfolding write_absent has_attachment
  store_checked (err e) file content dir = (err e, dir)
  store_checked (ok _) file content dir =
      (ok tt, write_absent (has_attachment file.path dir) file content dir)

  unfoldable pub store_attachment : AttachmentRecord → List ℕ → Exec String ExecutionDir (Unit {0})
  unfolding store_checked check_download
  store_attachment file content dir = store_checked (check_download file content) file content dir
