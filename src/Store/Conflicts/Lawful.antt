-- ===== src/Store/Conflicts/Lawful.antt =====
-- crates/procnote-app/src/persistence/execution_store.rs: lemmas on the file store as a repository.
use procnote.Prelude.{
  ℕ, ◌≤◌, String, Bool, true, false, ◌&&◌, ◌||◌, ◌≡◌, refl, ap, sym, subst, subst₂, ◌∙◌, inl, inr,
  Option, none, some, List, [], ◌∷◌, ◌++◌, arith, Result, ok, err, any, absorbs, any-append, count,
  count-append_last, length, length-append, is_some,
}
use procnote.Event.{Event, EventMeta, EventRecord}
use procnote.Execution.State.{ExecutionState}
use procnote.App.Repository.{Decide}
use procnote.App.Sync.Conflicts.{Conflict, PushOutcome}
use procnote.App.Sync.Push.{Repository}
use procnote.App.Sync.Push.Laws.{Records, IsRepository}
use procnote.Store.Files.{Files}
use procnote.Store.Outbox.{SyncState, id_eq}
use procnote.Store.ConflictLog.{
  Line, is_of, parse, append_conflict, parse-append_conflict, is_of-other,
}
use procnote.Store.Directory.{
  ExecutionDir, unhandled, unhandled_if_linked, current_records, stamped, append_to, append_events,
}
use procnote.Store.Directory.Recorded.{Recorded, record_in-Recorded, record_in-again}
use procnote.Store.Directory.Appended.{
  HandledWithin, IsWellFormed, with_files, append_events-current,
}
use procnote.Store.Conflicts.{conflicts, is_kept, add_unless, add_conflict, file_repository}

-- Files and conflict lines are no part of the records.
current_records-files :
    (files : Files) (dir : ExecutionDir)
    → current_records (with_files files dir) ≡ current_records dir
unfolding current_records unhandled_if_linked unhandled
current_records-files files dir = go dir.sync
  where
    go :
        (sync : Option SyncState)
        → dir.log ++ unhandled_if_linked (with_files files dir) sync
          ≡ dir.log ++ unhandled_if_linked dir sync
    go none = refl
    go (some sync) = refl

current_records-lines :
    (lines : List Line) (dir : ExecutionDir)
    → current_records (record dir { conflict_lines = lines }) ≡ current_records dir
unfolding current_records unhandled_if_linked unhandled
current_records-lines lines dir = go dir.sync
  where
    go :
        (sync : Option SyncState)
        → dir.log ++ unhandled_if_linked (record dir { conflict_lines = lines }) sync
          ≡ dir.log ++ unhandled_if_linked dir sync
    go none = refl
    go (some sync) = refl

abbrev KeptBy : ExecutionDir → ExecutionDir → Type 0
KeptBy dir dir' = (dir'.conflict_lines ≡ dir.conflict_lines) × IsWellFormed dir'

append_to-kept :
    (sync : Option SyncState) (records : List EventRecord) (dir : ExecutionDir)
    → dir.sync ≡ sync
    → IsWellFormed dir
    → KeptBy dir (append_to sync records dir)
unfolding append_to
append_to-kept none records dir e wf = (refl, wf)
append_to-kept (some sync) records dir e wf =
    let within : sync.handled ≤ length dir.pending =
      subst (λ x. HandledWithin x dir.pending) e wf in
    (
      refl,
      subst (λ x. HandledWithin x (dir.pending ++ records)) (sym e)
          (omega (arith, length-append dir.pending records)),
    )

append_events-kept :
    (meta : EventMeta) (events : List Event) (dir : ExecutionDir)
    → IsWellFormed dir
    → KeptBy dir (append_events meta events dir)
unfolding append_events
append_events-kept meta [] dir wf = (refl, wf)
append_events-kept meta (event ∷ events) dir wf =
    append_to-kept dir.sync (stamped meta (event ∷ events)) dir refl wf

module _ (sha256_hex : List ℕ → String) (read_source : String → Result String (List ℕ))
    (show_path : String → String) where
  abbrev repo : Repository ExecutionDir
  repo = file_repository sha256_hex read_source show_path

  Recorded-kept :
      (meta : EventMeta) (decide : Decide PushOutcome) (dir : ExecutionDir) (o : PushOutcome)
      (r : Result String ExecutionState) (dir' : ExecutionDir) (o' : PushOutcome)
      → IsWellFormed dir
      → Recorded sha256_hex read_source show_path meta decide dir o r dir' o'
      → KeptBy dir dir'
  Recorded-kept meta decide dir o (ok s) dir' o' wf (d, origin, stored) =
      subst (KeptBy dir) (sym stored.0) (append_events-kept meta d.events dir wf)
  Recorded-kept meta decide dir o (err e) dir' o' wf same =
      subst (KeptBy dir) (sym same.0) (refl, wf)

  Recorded-Records :
      (meta : EventMeta) (decide : Decide PushOutcome) (dir : ExecutionDir) (o : PushOutcome)
      (r : Result String ExecutionState) (dir' : ExecutionDir) (o' : PushOutcome)
      → IsWellFormed dir
      → Recorded sha256_hex read_source show_path meta decide dir o r dir' o'
      → Records repo current_records meta decide dir o r dir' o'
  unfolding file_repository conflicts append_events
  Recorded-Records meta decide dir o (err e) dir' o' wf same =
      Records.failed e dir' o' (ap current_records same.0 ∙ current_records-files dir'.files dir)
        (ap (parse []) (Recorded-kept meta decide dir o (err e) dir' o' wf same).0)
  Recorded-Records meta decide dir o (ok s) dir' o' wf
        (d, inr (first, before, read, decided), stored) =
      Records.done before s d dir' o' first decided
        (ap current_records stored.0
          ∙ current_records-files dir'.files (append_events meta d.events dir)
          ∙ append_events-current meta d.events dir wf)
        (ap (parse [])
          (Recorded-kept meta decide dir o (ok s) dir' o' wf
            (d, inr (first, before, read, decided), stored)).0)
  Recorded-Records meta decide dir o (ok s) dir' o' wf
        (d, inl (retry, none_there, same_dir, same), stored) =
      subst₂ (Records repo current_records meta decide dir o (ok s)) (sym same_dir) (sym same)
        (Records.retried s retry)

  is_kept-named :
      (c : Conflict) (event_id : ℕ) (known : List Conflict)
      → c.entry.meta.event_id ≡ some event_id
      → is_kept c known ≡ any known (is_of event_id)
  unfolding is_kept is_of
  is_kept-named c event_id known named =
      ap (λ x. any known (λ k. is_some x && id_eq k.entry.meta.event_id x)) named

  added_any :
      (c : Conflict) (event_id : ℕ) (dir : ExecutionDir) (known : Bool)
      → is_kept c (conflicts dir) ≡ known
      → c.entry.meta.event_id ≡ some event_id
      → (other : ℕ)
      → any (conflicts (add_unless known c dir)) (is_of other)
        ≡ any (conflicts dir) (is_of other) || is_of other c
  unfolding add_unless conflicts is_of
  added_any c event_id dir true h named other = absorbs _ _ λ own.
      subst (λ i. any (conflicts dir) (is_of i) ≡ true) (is_of-other c event_id other named own)
        (sym (is_kept-named c event_id (conflicts dir) named) ∙ h)
  added_any c event_id dir false h named other =
      ap (λ l. any l (is_of other)) (parse-append_conflict c dir.conflict_lines)
      ∙ any-append (conflicts dir) (record c { resolved = none } ∷ []) (is_of other)
      ∙ ap (◌||◌ (any (conflicts dir) (is_of other))) (or_false (is_of other c))
    where
      or_false : (b : Bool) → b || false ≡ b
      or_false b = ground arith

  added_known :
      (c : Conflict) (event_id : ℕ) (dir : ExecutionDir)
      → c.entry.meta.event_id ≡ some event_id
      → any (conflicts dir) (is_of event_id) ≡ true
      → conflicts (add_unless (is_kept c (conflicts dir)) c dir) ≡ conflicts dir
  unfolding add_unless
  added_known c event_id dir named known =
      ap (λ b. conflicts (add_unless b c dir))
        (is_kept-named c event_id (conflicts dir) named ∙ known)

  added_once :
      (c : Conflict) (event_id : ℕ) (dir : ExecutionDir)
      → c.entry.meta.event_id ≡ some event_id
      → any (conflicts dir) (is_of event_id) ≡ false
      → (p : Conflict → Bool)
      → count (conflicts (add_unless (is_kept c (conflicts dir)) c dir)) p
        ≡ count (record c { resolved = none } ∷ conflicts dir) p
  unfolding add_unless conflicts
  added_once c event_id dir named fresh p =
      ap (λ b. count (conflicts (add_unless b c dir)) p)
        (is_kept-named c event_id (conflicts dir) named ∙ fresh)
      ∙ ap (λ l. count l p) (parse-append_conflict c dir.conflict_lines)
      ∙ count-append_last (conflicts dir) (record c { resolved = none }) p

  add_unless-same :
      (c : Conflict) (dir : ExecutionDir) (known : Bool)
      → IsWellFormed dir
      → (current_records (add_unless known c dir) ≡ current_records dir)
        × IsWellFormed (add_unless known c dir)
  unfolding add_unless
  add_unless-same c dir true wf = (refl, wf)
  add_unless-same c dir false wf =
      (current_records-lines (append_conflict c dir.conflict_lines) dir, wf)

  -- The directory of an execution is a repository, as the trait promises: a retry changes nothing, a
  -- decision's events come behind the others, an error leaves the records and the conflicts, and a
  -- conflict is kept once for its event.
  pub file_repository-IsRepository :
      IsRepository (file_repository sha256_hex read_source show_path) current_records IsWellFormed
  unfolding file_repository add_conflict
  file_repository-IsRepository = record {
    recorded_valid = λ meta decide dir o wf.
        (Recorded-kept meta decide dir o _ _ _ wf
          (record_in-Recorded sha256_hex read_source show_path meta decide dir o wf)).1;
    recorded = λ meta decide dir o wf.
        Recorded-Records meta decide dir o _ _ _ wf
          (record_in-Recorded sha256_hex read_source show_path meta decide dir o wf);
    again = λ meta decide decide' dir dir' o o' p state wf done retry.
        record_in-again sha256_hex read_source show_path meta decide decide' dir dir' o o' p state
          wf done retry;
    added_valid = λ c dir wf. (add_unless-same c dir (is_kept c (conflicts dir)) wf).1;
    added_records = λ c dir wf. (add_unless-same c dir (is_kept c (conflicts dir)) wf).0;
    added = λ c dir event_id wf named done other.
        added_any c event_id dir (is_kept c (conflicts dir)) refl named other;
    added_known = λ c dir event_id wf named known. added_known c event_id dir named known;
    added_once = λ c dir event_id wf named fresh done p. added_once c event_id dir named fresh p;
    not_added = λ c dir e h. cc;
  }
