-- ===== src/Store/Settle/Settled.antt =====
-- crates/procnote-app/src/persistence/execution_store.rs: lemmas on `settle`.
use procnote.Prelude.{
  ℕ, zero, suc, take, ◌<◌, ◌≤◌, String, Bool, ◌≡◌, refl, ap, sym, subst, ◌∙◌, ◌⊎◌, inl, inr, Option,
  none, some, List, [], ◌∷◌, ◌++◌, arith, Result, ok, err, drop, drop-length, drop-append_length,
  length, nat_eq, nat_eq_refl, Bool-cases,
}
use Prim.Native.Nat.{max}
use native.Mathlib.Nat.{max-le, max-eq_right}
use mathlib.Core.List.{append-nil}
use procnote.Event.{EventRecord}
use procnote.Execution.State.{ExecutionState}
use procnote.Store.Outbox.{SyncState}
use procnote.Store.Directory.{
  ExecutionDir, unhandled, unhandled_if_linked, current_records, state_of_records, read_state,
}
use procnote.Store.Directory.Appended.{HandledWithin, IsWellFormed}
use procnote.Store.Settle.{
  Settlement, link, link_as, settle_log, settle_rejected, settle_state, settle_writes, settle_steps,
  written, check_pulled, check_lines, is_replayed, settle_checked, settle_linked, settle,
}

-- Linking changes neither the state that the execution reads as nor that it is well formed.
pub link-read_state :
    (registered : Bool) (dir : ExecutionDir)
    → IsWellFormed dir
    → (read_state (link registered dir) ≡ read_state dir) × IsWellFormed (link registered dir)
unfolding link
link-read_state registered dir wf = go dir.sync refl wf
  where
    go :
        (sync : Option SyncState)
        → dir.sync ≡ sync
        → HandledWithin sync dir.pending
        → (read_state (link_as registered sync dir) ≡ read_state dir)
          × IsWellFormed (link_as registered sync dir)
    go (some sync) e h =
        unfold link_as in (refl, subst (λ x. HandledWithin x dir.pending) (sym e) h)
    go none e h =
        unfold link_as read_state current_records unhandled_if_linked unhandled in
        (simp (e, h, append-nil), omega arith)

is_replayed-ok :
    (r : Result String ExecutionState) → is_replayed r ≡ ok tt → (s : ExecutionState) × (r ≡ ok s)
unfolding is_replayed
is_replayed-ok (ok s) h = (s, refl)
is_replayed-ok (err e) h = cc

-- Lines that may be appended leave a log that replays.
check_lines-replays :
    (pulled : List EventRecord) (after : ℕ) (log : List EventRecord)
    → ((s : ExecutionState) × (state_of_records log ≡ ok s))
    → check_lines pulled after log ≡ ok tt
    → (s : ExecutionState) × (state_of_records (log ++ pulled) ≡ ok s)
unfolding check_lines
check_lines-replays [] after log known h = rw (append-nil log) known
check_lines-replays (r ∷ pulled) after log known h = elim (Bool-cases (nat_eq after (length log))) [
  | inl same ↦ is_replayed-ok (state_of_records (log ++ r ∷ pulled)) (rw same at h)
  | inr other ↦ cc (rw other at h)
]

module _ (id : String) (st : Settlement) (dir : ExecutionDir) (sync : SyncState) where
  abbrev pub settled : ExecutionDir
  settled = settle_writes sync st dir

  -- The settlement went through: everything is written, and the state is read again; or the pulled
  -- lines do not continue the log, and nothing has changed.
  abbrev pub Settled : Result String ExecutionState → ExecutionDir → Type 0
  Settled r dir' =
      ((r ≡ read_state settled) × (dir' ≡ settled) × (check_pulled st dir ≡ ok tt))
      ⊎ ((dir' ≡ dir) × (e : String) × (r ≡ err e) × (check_pulled st dir ≡ err e))

  pub settle-Settled : dir.sync ≡ some sync → Settled (settle id st dir).0 (settle id st dir).1
  unfolding settle settle_linked settle_checked
  settle-Settled e =
      subst (λ x. Settled (settle_linked id x st dir).0 (settle_linked id x st dir).1) (sym e)
        (go (check_pulled st dir) refl)
    where
      go :
          (c : Result String (Unit {0}))
          → check_pulled st dir ≡ c
          → Settled (settle_checked sync st c dir).0 (settle_checked sync st c dir).1
      go (ok _) h = inl (refl, refl, h)
      go (err e) h = inr (refl, e, refl, h)

  -- What settling leaves waiting: the pending lines from the higher of the two marks on.
  pub settled-unhandled :
      current_records settled
      ≡ (dir.log ++ st.pulled) ++ drop (max sync.handled st.pending_upto) dir.pending
  unfolding settle_writes settle_log settle_rejected settle_state current_records
      unhandled_if_linked unhandled
  settled-unhandled = refl

  pub settled-IsWellFormed :
      dir.sync ≡ some sync
      → IsWellFormed dir
      → st.pending_upto ≤ length dir.pending
      → IsWellFormed settled
  unfolding settle_writes settle_log settle_rejected settle_state
  settled-IsWellFormed e wf h = max-le (subst (λ x. HandledWithin x dir.pending) e wf) h

  none_wait :
      dir.sync ≡ some sync
      → IsWellFormed dir
      → st.pending_upto ≡ length dir.pending
      → drop (max sync.handled st.pending_upto) dir.pending ≡ []
  none_wait e wf whole =
      let within : sync.handled ≤ length dir.pending =
        subst (λ x. HandledWithin x dir.pending) e wf in
      ap (λ n. drop (max sync.handled n) dir.pending) whole
      ∙ ap (λ n. drop n dir.pending) (max-eq_right within)
      ∙ drop-length dir.pending

  -- If nothing was recorded while the server was asked, a settlement that goes through answers with the
  -- state of the server's log, and nothing waits any more.
  pub settled-read_state :
      dir.sync ≡ some sync
      → IsWellFormed dir
      → st.pending_upto ≡ length dir.pending
      → ((s : ExecutionState) × (state_of_records dir.log ≡ ok s))
      → check_pulled st dir ≡ ok tt
      → (s : ExecutionState) × (read_state settled ≡ ok s) × (state_of_records settled.log ≡ ok s)
  unfolding read_state check_pulled settle_writes settle_log settle_rejected settle_state
  settled-read_state e wf whole known h =
      let (s, replays) = check_lines-replays st.pulled st.pulled_after dir.log known h in
      let all : current_records settled ≡ dir.log ++ st.pulled =
        settled-unhandled
        ∙ ap (◌++◌ (dir.log ++ st.pulled)) (none_wait e wf whole)
        ∙ append-nil (dir.log ++ st.pulled) in
      (s, ap state_of_records all ∙ replays, replays)

-- Where a crash can cut a settlement short: behind some of its writes, in their order, but not all.
pub data Interrupted (sync : SyncState) (st : Settlement) (dir : ExecutionDir)
    : ExecutionDir → Type 0 where
  cut :
      (n : ℕ)
      → n < length (settle_steps sync st)
      → Interrupted sync st dir (written (take n (settle_steps sync st)) dir)

-- What the next sync settles: the same events are answered in the same way, and the lines that the
-- server has behind this copy are pulled.
unfoldable pub resumed : Settlement → ExecutionDir → ExecutionDir → Settlement
resumed st dir found = record st {
  pulled = drop (length found.log) (dir.log ++ st.pulled);
  pulled_after = length found.log;
}

nothing_more : (log : List EventRecord) → log ++ drop (length log) log ≡ log
nothing_more log = ap (◌++◌ log) (drop-length log) ∙ append-nil log

resumed_log :
    (sync : SyncState) (st : Settlement) (dir found : ExecutionDir)
    → Interrupted sync st dir found
    → found.log ++ (resumed st dir found).pulled ≡ dir.log ++ st.pulled
unfolding resumed settle_steps
resumed_log sync st dir _ (Interrupted.cut zero h) =
    ap (◌++◌ dir.log) (drop-append_length dir.log st.pulled)
resumed_log sync st dir _ (Interrupted.cut (suc zero) h) = nothing_more (dir.log ++ st.pulled)
resumed_log sync st dir _ (Interrupted.cut (suc (suc zero)) h) = nothing_more (dir.log ++ st.pulled)
resumed_log sync st dir _ (Interrupted.cut (suc (suc (suc n))) h) = absurd (omega arith)

-- The marks are written last.
same_pending :
    (sync : SyncState) (st : Settlement) (dir found : ExecutionDir)
    → Interrupted sync st dir found
    → (found.pending ≡ dir.pending) × (found.sync ≡ dir.sync)
unfolding settle_steps
same_pending sync st dir _ (Interrupted.cut zero h) = (refl, refl)
same_pending sync st dir _ (Interrupted.cut (suc zero) h) = (refl, refl)
same_pending sync st dir _ (Interrupted.cut (suc (suc zero)) h) = (refl, refl)
same_pending sync st dir _ (Interrupted.cut (suc (suc (suc n))) h) = absurd (omega arith)

check_lines_self :
    (pulled log : List EventRecord) (s : ExecutionState)
    → state_of_records (log ++ pulled) ≡ ok s
    → check_lines pulled (length log) log ≡ ok tt
unfolding check_lines is_replayed
check_lines_self [] log s h = refl
check_lines_self (r ∷ pulled) log s h = rw (nat_eq_refl (length log), h) refl

-- After a crash behind any of the writes of a settlement but the last, where its lines replay, the
-- pending lines and the marks are those of before, so nothing that was to be sent is forgotten. If a
-- sync then brings the rest of the lines, they are accepted, and settling them leaves the log, the
-- pending lines, the marks and the state that the settlement would have left.
pub settle_writes-resumed :
    (st : Settlement) (dir found : ExecutionDir) (sync : SyncState) (s : ExecutionState)
    → state_of_records (dir.log ++ st.pulled) ≡ ok s
    → Interrupted sync st dir found
    → (found.pending ≡ dir.pending)
      × (found.sync ≡ dir.sync)
      × (check_pulled (resumed st dir found) found ≡ ok tt)
      × ((settle_writes sync (resumed st dir found) found).log ≡ (settle_writes sync st dir).log)
      × ((settle_writes sync (resumed st dir found) found).pending
          ≡ (settle_writes sync st dir).pending)
      × ((settle_writes sync (resumed st dir found) found).sync ≡ (settle_writes sync st dir).sync)
      × (read_state (settle_writes sync (resumed st dir found) found)
          ≡ read_state (settle_writes sync st dir))
unfolding settle_writes settle_log settle_rejected settle_state resumed check_pulled read_state
    current_records unhandled_if_linked unhandled
settle_writes-resumed st dir found sync s replays i =
    let log_same = resumed_log sync st dir found i in
    let (pending_same, sync_same) = same_pending sync st dir found i in
    (
      pending_same,
      sync_same,
      check_lines_self _ found.log s (ap state_of_records log_same ∙ replays),
      log_same,
      pending_same,
      refl,
      λ j.
          state_of_records (log_same j ++ drop (max sync.handled st.pending_upto) (pending_same j)),
    )
