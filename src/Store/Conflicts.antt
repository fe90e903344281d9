-- ===== src/Store/Conflicts.antt =====
-- crates/procnote-app/src/persistence/execution_store.rs: the conflicts in the directory of an
-- execution, and the file store as a repository.
pub mod Lawful
use procnote.Prelude.{
  ℕ, String, Bool, true, false, ◌&&◌, Option, some, List, [], Result, ok, Exec, any, is_some,
  if◌then◌else◌,
}
use procnote.App.Sync.Conflicts.{Conflict, Resolution, PushOutcome}
use procnote.App.Sync.Push.{Repository}
use procnote.Store.Outbox.{id_eq}
use procnote.Store.ConflictLog.{parse, append_conflict, append_resolution}
use procnote.Store.Directory.{ExecutionDir, record_in}

unfoldable pub conflicts : ExecutionDir → List Conflict
unfolding parse
conflicts dir = parse [] dir.conflict_lines

-- A conflict about the same event is kept.
unfoldable pub is_kept : Conflict → List Conflict → Bool
unfolding id_eq
is_kept c known =
    any known
      λ k. is_some c.entry.meta.event_id && id_eq k.entry.meta.event_id c.entry.meta.event_id

unfoldable pub add_unless : Bool → Conflict → ExecutionDir → ExecutionDir
unfolding append_conflict
add_unless true c dir = dir
add_unless false c dir = record dir { conflict_lines = append_conflict c dir.conflict_lines }

unfoldable pub add_conflict : Conflict → Exec String ExecutionDir (Unit {0})
unfolding add_unless is_kept conflicts
add_conflict c dir = (ok tt, add_unless (is_kept c (conflicts dir)) c dir)

unfoldable pub resolve_conflict : ℕ → Resolution → Exec String ExecutionDir (Unit {0})
unfolding append_resolution
resolve_conflict event_id resolution dir = (
  ok tt,
  record dir { conflict_lines = append_resolution event_id resolution dir.conflict_lines },
)

-- `impl ExecutionRepository for ExecutionStore`, at one execution.
unfoldable pub file_repository :
    (List ℕ → String)
    → (String → Result String (List ℕ))
    → (String → String)
    → Repository ExecutionDir
unfolding record_in conflicts add_conflict resolve_conflict
file_repository sha256_hex read_source show_path = record {
  record_in = λ meta decide dir o. record_in sha256_hex read_source show_path meta decide dir o;
  conflicts = conflicts;
  add_conflict = add_conflict;
  resolve_conflict = resolve_conflict;
}
