-- ===== src/Server/Postgres.antt =====
-- crates/procnote-server/src/postgres.rs: an execution in the database, as its rows. A transaction that
-- is not committed leaves the rows as they were; the object store, which keeps contents by their hash,
-- is no part of the transaction. `sha256_hex` is the digest, `read_source` reads a staged source, and
-- `id` is the printed ID of the execution.
pub mod Stored
pub mod Lawful
use procnote.Prelude.{
  ℕ, ◌+◌, String, ◌==◌, Bool, true, false, ◌&&◌, ◌||◌, Option, none, some, List, [], ◌∷◌, ◌++◌, map,
  Result, ok, err, Exec, any, append, contains_key, Keyed, get, insert, is_empty, is_some, leb,
  nat_eq, not, to_string, if◌then◌else◌,
}
use procnote.Event.{Event, EventMeta, EventRecord, log_meta}
use procnote.EventLog.{supported_version}
use procnote.Execution.State.{ExecutionState}
use procnote.App.Repository.{StagedFile, Decision, Decide, apply_decision}
use procnote.App.Sync.Conflicts.{Conflict, Resolution, PushOutcome}
use procnote.App.Sync.Push.{Repository}
use procnote.Store.ConflictLog.{is_of}
use procnote.Store.Directory.{state_of_records, is_retry, stamped}

-- Whether `executions` has the row, the rows of `events` by `seq`, those of `conflicts` by
-- `received_at` and `event_id`, those of `attachments`, and the object store.
pub record Rows : Type 0 where
  pub exists : Bool
  pub events : List EventRecord
  pub conflicts : List Conflict
  pub attachments : Keyed String
  pub contents : Keyed (List ℕ)

unfoldable pub check_first : Event → Result String (Unit {0})
check_first (log_meta _ version _) =
    if nat_eq version supported_version
    then ok tt
    else err (
        append "unsupported event log version " (
          append (to_string version)
            (append " (supported: " (append (to_string supported_version) ")"))))
check_first _ = err "event log does not start with LogMeta"

unfoldable pub check_log : List EventRecord → Result String (Unit {0})
unfolding check_first
check_log [] = err "event log does not start with LogMeta"
check_log (r ∷ records) = check_first r.event

unfoldable pub replay_checked :
    Result String (Unit {0}) → List EventRecord → Result String ExecutionState
unfolding state_of_records
replay_checked (ok _) records = state_of_records records
replay_checked (err e) records = err e

unfoldable pub replay : List EventRecord → Result String ExecutionState
unfolding replay_checked check_log
replay records = replay_checked (check_log records) records

unfoldable pub insert_absent : {V : Type 0} → String → V → Keyed V → Keyed V
insert_absent k v m = if contains_key k m then m else insert k v m

-- A call that goes on only if what came before went through.
unfoldable pub and_then :
    {A S : Type 0} → Result String (Unit {0}) → Exec String S A → Exec String S A
and_then (ok _) f s = f s
and_then (err e) f s = (err e, s)

module _ (sha256_hex : List ℕ → String) (read_source : String → Result String (List ℕ))
    (id : String) where
  unfoldable pub put_content : StagedFile → List ℕ → Exec String (Keyed (List ℕ)) (Unit {0})
  unfolding insert_absent
  put_content f bytes contents =
      if sha256_hex bytes == f.file.sha256
      then (ok tt, insert_absent f.file.sha256 bytes contents)
      else (
        err (
            append "attachment changed after it was staged: expected "
              (append f.file.sha256 (append ", got " (sha256_hex bytes)))),
        contents,
      )

  unfoldable pub put_read :
      StagedFile → Result String (List ℕ) → Exec String (Keyed (List ℕ)) (Unit {0})
  unfolding put_content
  put_read f (ok bytes) contents = put_content f bytes contents
  put_read f (err e) contents = (err e, contents)

  unfoldable pub store_content : StagedFile → Exec String (Keyed (List ℕ)) (Unit {0})
  unfolding put_read
  store_content f contents = put_read f (read_source f.source) contents

  -- The loop over the files: the rows of the transaction, and the object store.
  unfoldable pub store_files :
      List StagedFile → Exec String (Keyed String × Keyed (List ℕ)) (Unit {0})
  unfolding store_content and_then insert_absent
  store_files [] s = (ok tt, s)
  store_files (f ∷ files) (attachments, contents) =
      let (r, contents') = store_content f contents in
      and_then r (λ s. store_files files (insert_absent f.file.path f.file.sha256 s.0, s.1))
        (attachments, contents')

  unfoldable pub commit :
      EventMeta
      → Decision
      → ExecutionState
      → Result String (Unit {0})
      → Keyed String × Keyed (List ℕ)
      → Exec String Rows ExecutionState
  unfolding stamped
  commit meta d s (err e) (attachments, contents) rows =
      (err e, record rows { contents = contents })
  commit meta d s (ok _) (attachments, contents) rows = (
    ok s,
    record rows {
      events = rows.events ++ stamped meta d.events;
      attachments = attachments;
      contents = contents;
    },
  )

  unfoldable pub record_applied :
      EventMeta
      → Decision
      → ExecutionState
      → Result String (Unit {0})
      → Exec String Rows ExecutionState
  unfolding store_files commit
  record_applied meta d s (err e) rows = (err e, rows)
  record_applied meta d s (ok _) rows =
      let (r, stored) = store_files d.files (rows.attachments, rows.contents) in
      commit meta d s r stored rows

  unfoldable pub record_some :
      Bool → EventMeta → Decision → ExecutionState → Exec String Rows ExecutionState
  unfolding record_applied
  record_some true meta d s rows = (ok s, rows)
  record_some false meta d s rows =
      let (r, s') = apply_decision d s in record_applied meta d s' r rows

  unfoldable pub record_decided :
      EventMeta → ExecutionState → Result String Decision → Exec String Rows ExecutionState
  unfolding record_some
  record_decided meta s (err e) rows = (err e, rows)
  record_decided meta s (ok d) rows =
      record_some (is_empty d.events && is_empty d.files) meta d s rows

  -- The row of the execution, and its log.
  unfoldable pub read_locked : Rows → Result String ExecutionState
  unfolding replay
  read_locked rows =
      if rows.exists then replay rows.events else err (append "Execution not found: " id)

  module _ {O : Type 0} (meta : EventMeta) (decide : Decide O) where
    unfoldable pub record_unless :
        Bool → ExecutionState → Rows → O → (Result String ExecutionState × Rows) × O
    unfolding record_decided
    record_unless true s rows o = ((ok s, rows), o)
    record_unless false s rows o = let (r, o') = decide s o in (record_decided meta s r rows, o')

    unfoldable pub record_on :
        Result String ExecutionState → Rows → O → (Result String ExecutionState × Rows) × O
    unfolding record_unless is_retry
    record_on (err e) rows o = ((err e, rows), o)
    record_on (ok s) rows o = record_unless (is_retry rows.events meta) s rows o

    -- `record_async`, with the execution's row locked.
    unfoldable pub record_async : Rows → O → (Result String ExecutionState × Rows) × O
    unfolding record_on read_locked
    record_async rows o = record_on (read_locked rows) rows o

unfoldable pub id_before : Option ℕ → Option ℕ → Bool
id_before (some x) (some y) = not (leb y x)
id_before _ _ = false

-- `ORDER BY received_at, event_id`
unfoldable pub is_before : Conflict → Conflict → Bool
unfolding id_before
is_before a b =
    not (leb b.received_at a.received_at)
    || nat_eq a.received_at b.received_at && id_before a.entry.meta.event_id b.entry.meta.event_id

unfoldable pub place : Conflict → List Conflict → List Conflict
unfolding is_before
place c [] = c ∷ []
place c (x ∷ rows) = let rest = place c rows in if is_before c x then c ∷ x ∷ rows else x ∷ rest

unfoldable pub insert_conflict : Bool → Conflict → Rows → Rows
unfolding place
insert_conflict true c rows = rows
insert_conflict false c rows = record rows {
  conflicts = place (record c { resolved = none }) rows.conflicts;
}

unfoldable pub add_named : Option ℕ → Conflict → Exec String Rows (Unit {0})
unfolding insert_conflict is_of
add_named none c rows = (err "conflicts need an event ID", rows)
add_named (some event_id) c rows =
    (ok tt, insert_conflict (any rows.conflicts (is_of event_id)) c rows)

unfoldable pub add_conflict : Conflict → Exec String Rows (Unit {0})
unfolding add_named
add_conflict c rows = add_named c.entry.meta.event_id c rows

-- `UPDATE conflicts SET … WHERE …`
unfoldable pub resolve_conflict : ℕ → Resolution → Exec String Rows (Unit {0})
unfolding is_of
resolve_conflict event_id resolution rows = (
  ok tt,
  record rows {
    conflicts =
        map (λ c. if is_of event_id c then record c { resolved = some resolution } else c)
          rows.conflicts;
  },
)

-- `impl ExecutionRepository for PostgresStore`, at one execution.
unfoldable pub postgres_repository :
    (List ℕ → String) → (String → Result String (List ℕ)) → String → Repository Rows
unfolding record_async add_conflict resolve_conflict
postgres_repository sha256_hex read_source id = record {
  record_in = λ meta decide rows o. record_async sha256_hex read_source id meta decide rows o;
  conflicts = λ rows. rows.conflicts;
  add_conflict = add_conflict;
  resolve_conflict = resolve_conflict;
}
