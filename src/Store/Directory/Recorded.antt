-- ===== src/Store/Directory/Recorded.antt =====
-- crates/procnote-app/src/persistence/execution_store.rs: lemmas on `record`.
use procnote.Prelude.{
  ℕ, String, Bool, true, false, ◌≡◌, refl, sym, subst, ◌∙◌, ◌⊎◌, inl, inr, Option, none, some, List,
  [], ◌∷◌, ◌++◌, Result, ok, err, All,
}
use procnote.Event.{Event, EventMeta, EventRecord}
use procnote.Execution.State.{ExecutionState}
use procnote.App.Repository.{Decision, Decide, apply_decision}
use procnote.Store.Files.{Files, store_all, IsStoredFile, Keeps, store_all-Keeps, store_all-ok}
use procnote.Store.Outbox.{SyncState}
use procnote.Store.Directory.{
  ExecutionDir, unhandled, unhandled_if_linked, current_records, state_of_records, read_state,
  is_retry, stamped, append_to, append_events, record_stored, record_applied, record_decided,
  record_unless, record_on, record_in,
}
use procnote.Store.Directory.Appended.{
  IsWellFormed, with_files, append_events-current, state_of_records-append,
}

module _ (sha256_hex : List ℕ → String) (read_source : String → Result String (List ℕ))
    (show_path : String → String) where
  -- The directory with the decision stored: its events behind the others, and its files; or the
  -- directory as it was, but for files of a decision that failed.
  abbrev pub Stored :
      EventMeta → Decision → ExecutionDir → Result String ExecutionState → ExecutionDir → Type 0
  Stored meta d dir (ok s) dir' =
      (dir' ≡ with_files dir'.files (append_events meta d.events dir))
      × (read_state dir' ≡ ok s)
      × All (IsStoredFile sha256_hex dir'.files) d.files
      × Keeps dir.files dir'.files
  Stored meta d dir (err e) dir' = (dir' ≡ with_files dir'.files dir) × Keeps dir.files dir'.files

  abbrev nothing : Decision
  nothing = record { events = []; files = [] }

  -- Where the decision is from: there is none for a retry, and else it is what `decide` makes of the
  -- state that the directory reads as.
  abbrev pub Origin :
      {O : Type 0} → EventMeta → Decide O → ExecutionDir → O → ExecutionDir → O → Decision → Type 0
  Origin meta decide dir o dir' o' d =
      ((is_retry (current_records dir) meta ≡ true) × (d ≡ nothing) × (dir' ≡ dir) × (o' ≡ o))
      ⊎ ((is_retry (current_records dir) meta ≡ false)
          × (before : ExecutionState) × (read_state dir ≡ ok before)
          × (decide before o ≡ (ok d, o')))

  abbrev pub Recorded :
      {O : Type 0}
      → EventMeta
      → Decide O
      → ExecutionDir
      → O
      → Result String ExecutionState
      → ExecutionDir
      → O
      → Type 0
  Recorded meta decide dir o (ok s) dir' o' =
      (d : Decision) × Origin meta decide dir o dir' o' d × Stored meta d dir (ok s) dir'
  Recorded meta decide dir o (err e) dir' o' =
      (dir' ≡ with_files dir'.files dir) × Keeps dir.files dir'.files

  append_events-files :
      (meta : EventMeta) (events : List Event) (files : Files) (dir : ExecutionDir)
      → append_events meta events (with_files files dir)
        ≡ with_files files (append_events meta events dir)
  unfolding append_events
  append_events-files meta [] files dir = refl
  append_events-files meta (event ∷ events) files dir =
      append_to-files dir.sync (stamped meta (event ∷ events))
    where
      append_to-files :
          (sync : Option SyncState) (records : List EventRecord)
          → append_to sync records (with_files files dir)
            ≡ with_files files (append_to sync records dir)
      append_to-files none records = unfold append_to in refl
      append_to-files (some sync) records = unfold append_to in refl

  read_state-files :
      (files : Files) (dir : ExecutionDir) → read_state (with_files files dir) ≡ read_state dir
  unfolding read_state current_records unhandled_if_linked unhandled
  read_state-files files dir = go dir.sync
    where
      go :
          (sync : Option SyncState)
          → state_of_records (dir.log ++ unhandled_if_linked (with_files files dir) sync)
            ≡ state_of_records (dir.log ++ unhandled_if_linked dir sync)
      go none = refl
      go (some sync) = refl

  abbrev StoredBy :
      EventMeta → Decision → ExecutionDir → Result String ExecutionState × ExecutionDir → Type 0
  StoredBy meta d dir r = Stored meta d dir r.0 r.1

  record_stored-Stored :
      (meta : EventMeta) (d : Decision) (s : ExecutionState) (dir : ExecutionDir) (files : Files)
      (r : Result String (Unit {0}))
      → read_state (append_events meta d.events dir) ≡ ok s
      → Keeps dir.files files
      → (r ≡ ok tt → All (IsStoredFile sha256_hex files) d.files)
      → StoredBy meta d dir
          (record_stored sha256_hex read_source show_path meta d s r (with_files files dir))
  unfolding record_stored
  record_stored-Stored meta d s dir files (err e) h keeps stored = (refl, keeps)
  record_stored-Stored meta d s dir files (ok _) h keeps stored =
      subst (Stored meta d dir (ok s)) (sym (append_events-files meta d.events files dir))
        (refl, read_state-files files (append_events meta d.events dir) ∙ h, stored refl, keeps)

  record_applied-Stored :
      (meta : EventMeta) (d : Decision) (s : ExecutionState) (dir : ExecutionDir)
      (r : Result String (Unit {0}))
      → (r ≡ ok tt → read_state (append_events meta d.events dir) ≡ ok s)
      → StoredBy meta d dir (record_applied sha256_hex read_source show_path meta d s r dir)
  unfolding record_applied
  record_applied-Stored meta d s dir (err e) h = (refl, λ p c k. k)
  record_applied-Stored meta d s dir (ok _) h =
      let stored = store_all sha256_hex read_source show_path d.files dir.files in
      record_stored-Stored meta d s dir stored.1 stored.0 (h refl)
        (store_all-Keeps sha256_hex read_source show_path d.files dir.files)
        (store_all-ok sha256_hex read_source show_path d.files dir.files)

  record_decided-Recorded :
      {O : Type 0} (meta : EventMeta) (decide : Decide O) (s : ExecutionState) (dir : ExecutionDir)
      (o o' : O) (r : Result String Decision)
      → IsWellFormed dir
      → read_state dir ≡ ok s
      → is_retry (current_records dir) meta ≡ false
      → decide s o ≡ (r, o')
      → Recorded meta decide dir o
          (record_decided sha256_hex read_source show_path meta s r dir).0
          (record_decided sha256_hex read_source show_path meta s r dir).1
          o'
  unfolding record_decided read_state
  record_decided-Recorded meta decide s dir o o' (err e) wf h first decided = (refl, λ p c k. k)
  record_decided-Recorded meta decide s dir o o' (ok d) wf h first decided =
      go
        (record_applied sha256_hex read_source show_path meta d (apply_decision d s).1
          (apply_decision d s).0 dir).0
        _
        (record_applied-Stored meta d (apply_decision d s).1 dir (apply_decision d s).0 λ accepted.
          rw (append_events-current meta d.events dir wf)
            (state_of_records-append (current_records dir) meta s d h accepted))
    where
      go :
          (x : Result String ExecutionState) (dir' : ExecutionDir)
          → Stored meta d dir x dir'
          → Recorded meta decide dir o x dir' o'
      go (ok t) dir' h' = (d, inr (first, s, h, decided), h')
      go (err e) dir' h' = h'

  record_unless-Recorded :
      {O : Type 0} (meta : EventMeta) (decide : Decide O) (retry : Bool) (s : ExecutionState)
      (dir : ExecutionDir) (o : O)
      → IsWellFormed dir
      → read_state dir ≡ ok s
      → is_retry (current_records dir) meta ≡ retry
      → Recorded meta decide dir o
          (record_unless sha256_hex read_source show_path meta decide retry s dir o).0.0
          (record_unless sha256_hex read_source show_path meta decide retry s dir o).0.1
          (record_unless sha256_hex read_source show_path meta decide retry s dir o).1
  unfolding record_unless append_events
  record_unless-Recorded meta decide true s dir o wf h retry =
      (nothing, inl (retry, refl, refl, refl), (refl, h, tt, λ p c k. k))
  record_unless-Recorded meta decide false s dir o wf h retry =
      record_decided-Recorded meta decide s dir o (decide s o).1 (decide s o).0 wf h retry refl

  record_on-Recorded :
      {O : Type 0} (meta : EventMeta) (decide : Decide O) (r : Result String ExecutionState)
      (dir : ExecutionDir) (o : O)
      → IsWellFormed dir
      → read_state dir ≡ r
      → Recorded meta decide dir o
          (record_on sha256_hex read_source show_path meta decide r dir o).0.0
          (record_on sha256_hex read_source show_path meta decide r dir o).0.1
          (record_on sha256_hex read_source show_path meta decide r dir o).1
  unfolding record_on
  record_on-Recorded meta decide (err e) dir o wf h = (refl, λ p c k. k)
  record_on-Recorded meta decide (ok s) dir o wf h =
      record_unless-Recorded meta decide (is_retry (current_records dir) meta) s dir o wf h refl

  pub record_in-Recorded :
      {O : Type 0} (meta : EventMeta) (decide : Decide O) (dir : ExecutionDir) (o : O)
      → IsWellFormed dir
      → Recorded meta decide dir o
          (record_in sha256_hex read_source show_path meta decide dir o).0.0
          (record_in sha256_hex read_source show_path meta decide dir o).0.1
          (record_in sha256_hex read_source show_path meta decide dir o).1
  unfolding record_in
  record_in-Recorded meta decide dir o wf =
      record_on-Recorded meta decide (read_state dir) dir o wf refl

  -- A request whose event ID is recorded is a retry: nothing is decided, and the state comes back.
  record_in-retry :
      {O : Type 0} (meta : EventMeta) (decide : Decide O) (dir : ExecutionDir) (o : O)
      (s : ExecutionState)
      → read_state dir ≡ ok s
      → is_retry (current_records dir) meta ≡ true
      → record_in sha256_hex read_source show_path meta decide dir o ≡ ((ok s, dir), o)
  unfolding record_in record_on record_unless
  record_in-retry meta decide dir o s h retry = rw (h, retry) refl

  Recorded-state :
      {O : Type 0} (meta : EventMeta) (decide : Decide O) (dir dir' : ExecutionDir) (o o' : O)
      (r : Result String ExecutionState) (s : ExecutionState)
      → Recorded meta decide dir o r dir' o'
      → r ≡ ok s
      → read_state dir' ≡ ok s
  Recorded-state meta decide dir dir' o o' (ok t) s h e = h.2.1 ∙ e
  Recorded-state meta decide dir dir' o o' (err x) s h e = cc

  -- A request that has gone through can be sent again: if its event ID is recorded then, the same state
  -- comes back, and the directory and what the request had captured are as they were, whatever the
  -- request asks for now.
  pub record_in-again :
      {O : Type 0} (meta : EventMeta) (decide again : Decide O) (dir dir' : ExecutionDir)
      (o o' later : O) (s : ExecutionState)
      → IsWellFormed dir
      → record_in sha256_hex read_source show_path meta decide dir o ≡ ((ok s, dir'), o')
      → is_retry (current_records dir') meta ≡ true
      → record_in sha256_hex read_source show_path meta again dir' later ≡ ((ok s, dir'), later)
  record_in-again meta decide again dir dir' o o' later s wf done retry =
      record_in-retry meta again dir' later s
        (Recorded-state meta decide dir dir' o o' (ok s) s
          (subst (λ x. Recorded meta decide dir o x.0.0 x.0.1 x.1) done
            (record_in-Recorded meta decide dir o wf))
          refl)
        retry
