-- ===== src/Server/Postgres/Stored.antt =====
-- crates/procnote-server/src/postgres.rs: lemmas on `record_async`.
use procnote.Prelude.{
  ℕ, String, Bool, true, false, ◌&&◌, ◌≡◌, refl, sym, List, [], ◌∷◌, ◌++◌, Result, ok, err,
  is_empty, Keyed,
}
use mathlib.Core.List.{append-nil}
use procnote.Event.{Event, EventMeta, EventRecord}
use procnote.Execution.State.{ExecutionState}
use procnote.App.Repository.{Decision, apply_decision}
use procnote.Store.Directory.{stamped}
use procnote.Store.Directory.Appended.{state_of_records-append}
use procnote.Server.Postgres.{
  Rows, check_first, check_log, replay_checked, replay, store_files, commit, record_applied,
  record_some,
}

replay_checked-append :
    (c : Result String (Unit {0})) (records : List EventRecord) (meta : EventMeta)
    (s : ExecutionState) (d : Decision)
    → replay_checked c records ≡ ok s
    → (apply_decision d s).0 ≡ ok tt
    → replay_checked c (records ++ stamped meta d.events) ≡ ok (apply_decision d s).1
unfolding replay_checked
replay_checked-append (ok _) records meta s d h accepted =
    state_of_records-append records meta s d h accepted
replay_checked-append (err e) records meta s d h accepted = cc

-- Events that are applied to the state of the rows are read behind them.
pub replay-append :
    (records : List EventRecord) (meta : EventMeta) (s : ExecutionState) (d : Decision)
    → replay records ≡ ok s
    → (apply_decision d s).0 ≡ ok tt
    → replay (records ++ stamped meta d.events) ≡ ok (apply_decision d s).1
unfolding replay check_log replay_checked
replay-append [] meta s d h accepted = cc
replay-append (r ∷ records) meta s d h accepted =
    replay_checked-append (check_first r.event) (r ∷ records) meta s d h accepted

-- The rows with the decided events behind the others, or with the rows of before.
abbrev pub Committed : EventMeta → Decision → Rows → Result String ExecutionState → Rows → Type 0
Committed meta d rows (ok s) rows' =
    (rows'.exists ≡ rows.exists)
    × (rows'.events ≡ rows.events ++ stamped meta d.events)
    × (rows'.conflicts ≡ rows.conflicts)
    × (replay rows'.events ≡ ok s)
Committed meta d rows (err e) rows' =
    (rows'.exists ≡ rows.exists)
    × (rows'.events ≡ rows.events)
    × (rows'.conflicts ≡ rows.conflicts)
    × (rows'.attachments ≡ rows.attachments)

module _ (sha256_hex : List ℕ → String) (read_source : String → Result String (List ℕ))
    (id : String) where
  commit-Committed :
      (meta : EventMeta) (d : Decision) (s : ExecutionState) (r : Result String (Unit {0}))
      (stored : Keyed String × Keyed (List ℕ)) (rows : Rows)
      → replay (rows.events ++ stamped meta d.events) ≡ ok s
      → Committed meta d rows
          (commit sha256_hex read_source id meta d s r stored rows).0
          (commit sha256_hex read_source id meta d s r stored rows).1
  unfolding commit
  commit-Committed meta d s (ok _) (attachments, contents) rows h = (refl, refl, refl, h)
  commit-Committed meta d s (err e) (attachments, contents) rows h = (refl, refl, refl, refl)

  record_applied-Committed :
      (meta : EventMeta) (d : Decision) (s : ExecutionState) (r : Result String (Unit {0}))
      (rows : Rows)
      → (r ≡ ok tt → replay (rows.events ++ stamped meta d.events) ≡ ok s)
      → Committed meta d rows
          (record_applied sha256_hex read_source id meta d s r rows).0
          (record_applied sha256_hex read_source id meta d s r rows).1
  unfolding record_applied
  record_applied-Committed meta d s (ok _) rows h =
      let stored =
        store_files sha256_hex read_source id d.files (rows.attachments, rows.contents) in
      commit-Committed meta d s stored.0 stored.1 rows (h refl)
  record_applied-Committed meta d s (err e) rows h = (refl, refl, refl, refl)

  no_events :
      (meta : EventMeta) (events : List Event) (records : List EventRecord) (b : Bool)
      → is_empty events && b ≡ true
      → records ≡ records ++ stamped meta events
  unfolding stamped
  no_events meta [] records b h = sym (append-nil records)
  no_events meta (event ∷ events) records b h = cc

  pub record_some-Committed :
      (nothing : Bool) (meta : EventMeta) (d : Decision) (s : ExecutionState) (rows : Rows)
      → is_empty d.events && is_empty d.files ≡ nothing
      → replay rows.events ≡ ok s
      → Committed meta d rows
          (record_some sha256_hex read_source id nothing meta d s rows).0
          (record_some sha256_hex read_source id nothing meta d s rows).1
  unfolding record_some
  record_some-Committed true meta d s rows e h =
      (refl, no_events meta d.events rows.events (is_empty d.files) e, refl, h)
  record_some-Committed false meta d s rows e h =
      record_applied-Committed meta d (apply_decision d s).1 (apply_decision d s).0 rows
        (replay-append rows.events meta s d h)
