-- ===== src/DropPoint/Sessions.antt =====
-- src-tauri/src/drop_point/session.rs: the private state files of a workspace, by session ID. A file
-- holds the state that was written to it; `missing` is the file system's error for a file that is not
-- there.
pub mod Follows
pub mod Reads
pub mod Changes
use procnote.Prelude.{
  String, Bool, true, false, Option, none, some, List, [], ◌∷◌, Result, ok, err, Exec, Keyed, get,
  insert, is_some, if◌then◌else◌,
}
use procnote.DropPoint.Session.{PathBuf, ActiveDropPointSession}
use procnote.DropPoint.Validate.{validate}
use procnote.DropPoint.Links.{Libraries, validate_session_id}
use procnote.DropPoint.Merge.{merge_transition}

abbrev pub StateFiles : Type 0
StateFiles = Keyed ActiveDropPointSession

-- The calls that write a state, with what they leave also where they fail.
pub data Call : Type 0 where
  inserted : ActiveDropPointSession → Call
  persisted : ActiveDropPointSession → Call

module _ (lib : Libraries) (root : PathBuf) (missing : String) where
  unfoldable pub valid_or :
      Result String (Unit {0}) → ActiveDropPointSession → Result String ActiveDropPointSession
  valid_or (ok _) s = ok s
  valid_or (err e) s = err e

  unfoldable pub read_file : Option ActiveDropPointSession → Result String ActiveDropPointSession
  unfolding valid_or
  read_file none = err missing
  read_file (some s) = valid_or (validate lib root s) s

  unfoldable pub read_named :
      Result String (Unit {0}) → String → StateFiles → Result String ActiveDropPointSession
  unfolding read_file
  read_named (err e) id files = err e
  read_named (ok _) id files = read_file (get id files)

  unfoldable pub read_session : String → StateFiles → Result String ActiveDropPointSession
  unfolding read_named
  read_session id files = read_named (validate_session_id lib id) id files

  unfoldable pub insert_valid :
      Result String (Unit {0}) → ActiveDropPointSession → Exec String StateFiles (Unit {0})
  insert_valid (err e) s files = (err e, files)
  insert_valid (ok _) s files =
      if is_some (get s.session_id files)
      then (err "DropPoint private state already exists", files)
      else (ok tt, insert s.session_id s files)

  -- `DropPointSessions::insert`
  unfoldable pub insert_session : ActiveDropPointSession → Exec String StateFiles (Unit {0})
  unfolding insert_valid
  insert_session s files = insert_valid (validate lib root s) s files

  unfoldable pub persist_merged :
      Result String (Option ActiveDropPointSession) → String → Exec String StateFiles (Unit {0})
  persist_merged (err e) id files = (err e, files)
  persist_merged (ok none) id files = (ok tt, files)
  persist_merged (ok (some merged)) id files = (ok tt, insert id merged files)

  unfoldable pub persist_over :
      Result String ActiveDropPointSession
      → ActiveDropPointSession
      → Exec String StateFiles (Unit {0})
  unfolding persist_merged
  persist_over (err e) s files = (err e, files)
  persist_over (ok current) s files = persist_merged (merge_transition current s) s.session_id files

  unfoldable pub persist_valid :
      Result String (Unit {0}) → ActiveDropPointSession → Exec String StateFiles (Unit {0})
  unfolding persist_over read_session
  persist_valid (err e) s files = (err e, files)
  persist_valid (ok _) s files = persist_over (read_session s.session_id files) s files

  -- `DropPointSessions::persist`
  unfoldable pub persist : ActiveDropPointSession → Exec String StateFiles (Unit {0})
  unfolding persist_valid
  persist s files = persist_valid (validate lib root s) s files

  unfoldable pub after_call : Call → StateFiles → StateFiles
  unfolding insert_session persist
  after_call (inserted s) files = (insert_session s files).1
  after_call (persisted s) files = (persist s files).1

  unfoldable pub after_calls : List Call → StateFiles → StateFiles
  unfolding after_call
  after_calls [] files = files
  after_calls (call ∷ calls) files = after_calls calls (after_call call files)
