-- ===== src/Store/Workspace/Stuck.antt =====
-- crates/procnote-app/src/persistence/execution_store.rs: lemmas on an execution that cannot be read.
use procnote.Prelude.{
  String, ◌≡◌, refl, ap, ◌∙◌, Option, none, some, List, [], ◌∷◌, ◌++◌, Result, ok, err,
}
use mathlib.Core.List.{map-append}
use procnote.Event.{ExecutionId, Event, EventRecord}
use procnote.Execution.State.{ExecutionError, ExecutionState, new}
use procnote.Execution.Describe.{describe}
use procnote.Execution.Apply.{replay_event, replay, from_events}
use procnote.App.Repository.{message}
use procnote.Store.Outbox.{SyncState}
use procnote.Store.Directory.{
  ExecutionDir, unhandled, unhandled_if_linked, current_records, events_of, state_of_records,
  read_state,
}
use procnote.Store.Directory.Replayed.{replay-append}
use procnote.Store.Directory.Appended.{message_ok}
use procnote.Store.Settle.{Settlement, settle_log}
use procnote.Store.Workspace.{Workspace, add_linked, linked_state, linked_dir, linked}

replay-refused :
    (s : ExecutionState) (event : Event) (rest : List Event) (e : ExecutionError)
    → replay_event s event ≡ err e
    → replay s (event ∷ rest) ≡ err e
unfolding replay
replay-refused s event rest e h = rw (h, replay) refl

module _ (st : Settlement) (dir : ExecutionDir) (sync : SyncState) (r : EventRecord)
    (rest : List EventRecord) (s : ExecutionState) (e : ExecutionError) where
  -- A crash behind the first write of a settlement leaves pulled lines in the log, and the events that
  -- came back among them still pending. If the first of these is refused behind the log, which it is
  -- when it can be done only once, the execution cannot be read.
  pub interrupted-unreadable :
      dir.sync ≡ some sync
      → unhandled dir sync ≡ r ∷ rest
      → state_of_records (dir.log ++ st.pulled) ≡ ok s
      → replay_event s r.event ≡ err e
      → read_state (settle_log st dir) ≡ err (describe e)
  unfolding read_state state_of_records current_records settle_log from_events message
  interrupted-unreadable linked waiting replays refused =
      let log = dir.log ++ st.pulled in
      let before : replay new (events_of log) ≡ ok s =
        message_ok (replay new (events_of log)) s replays in
      let pending : unhandled_if_linked (settle_log st dir) dir.sync ≡ r ∷ rest =
        ap (unhandled_if_linked (settle_log st dir)) linked ∙ still_waiting waiting in
      let all : replay new (events_of (log ++ unhandled_if_linked (settle_log st dir) dir.sync))
          ≡ err e =
        ap (λ l. replay new (events_of (log ++ l))) pending
        ∙ ap (replay new) (map-append _ log (r ∷ rest))
        ∙ replay-append new s (events_of log) (events_of (r ∷ rest)) before
        ∙ replay-refused s r.event (events_of rest) e refused in
      ap message all
    where
      still_waiting :
          unhandled dir sync ≡ r ∷ rest
          → unhandled_if_linked (settle_log st dir) (some sync) ≡ r ∷ rest
      still_waiting h = unfold unhandled_if_linked in unfold unhandled in unfold settle_log in h

add_linked-error :
    (id : Option ExecutionId) (sync : SyncState) (e : String) → add_linked id sync (err e) ≡ err e
unfolding add_linked
add_linked-error none sync e = refl
add_linked-error (some id) sync e = refl

linked_dir-error :
    (x : Option SyncState) (dir : ExecutionDir) (e : String)
    → (e' : String) × (linked_dir x dir (err e) ≡ err e')
unfolding linked_dir
linked_dir-error none dir e = (e, refl)
linked_dir-error (some sync) dir e = go (read_state dir)
  where
    go : (r : Result String ExecutionState) → (e' : String) × (linked_state sync r (err e) ≡ err e')
    go (ok s) = unfold linked_state in (e, add_linked-error s.execution_id sync e)
    go (err x) = unfold linked_state in (x, refl)

-- One linked execution that cannot be read keeps the others from being listed.
pub linked-unreadable :
    (before after : Workspace) (dir : ExecutionDir) (sync : SyncState) (e : String)
    → dir.sync ≡ some sync
    → read_state dir ≡ err e
    → (e' : String) × (linked (before ++ dir ∷ after) ≡ err e')
unfolding linked linked_dir linked_state
linked-unreadable [] after dir sync e there unreadable = (
  e,
  ap (λ x. linked_dir x dir (linked after)) there
      ∙ ap (λ r. linked_state sync r (linked after)) unreadable,
)
linked-unreadable (d ∷ before) after dir sync e there unreadable =
    let (x, failed) = linked-unreadable before after dir sync e there unreadable in
    let (e', h) = linked_dir-error d.sync d x in (e', ap (linked_dir d.sync d) failed ∙ h)
