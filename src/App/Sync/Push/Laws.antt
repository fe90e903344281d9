-- ===== src/App/Sync/Push/Laws.antt =====
-- crates/procnote-app/src/repository.rs: what the doc comments of `ExecutionRepository` promise of the
-- operations that a push needs.
use procnote.Prelude.{
  ℕ, String, true, false, ◌||◌, ◌≡◌, some, List, ◌++◌, Result, ok, err, any, count, none, ◌∷◌, Bool,
}
use procnote.Event.{EventMeta, EventRecord}
use procnote.Execution.State.{ExecutionState}
use procnote.App.Repository.{Decision, Decide}
use procnote.App.Sync.Conflicts.{Conflict, PushOutcome}
use procnote.App.Sync.Push.{Repository}
use procnote.Store.Directory.{is_retry, stamped}
use procnote.Store.ConflictLog.{is_of}

module _ {S : Type 0} (repo : Repository S) (records : S → List EventRecord) where
  -- What a call of `record` may do.
  pub data Records (meta : EventMeta) (decide : Decide PushOutcome) (s : S) (o : PushOutcome)
      : Result String ExecutionState → S → PushOutcome → Type 0 where
    failed :
        (e : String) (s' : S) (o' : PushOutcome)
        → records s' ≡ records s
        → repo.conflicts s' ≡ repo.conflicts s
        → Records meta decide s o (err e) s' o'
    retried :
        (state : ExecutionState)
        → is_retry (records s) meta ≡ true
        → Records meta decide s o (ok state) s o
    done :
        (before state : ExecutionState) (d : Decision) (s' : S) (o' : PushOutcome)
        → is_retry (records s) meta ≡ false
        → decide before o ≡ (ok d, o')
        → records s' ≡ records s ++ stamped meta d.events
        → repo.conflicts s' ≡ repo.conflicts s
        → Records meta decide s o (ok state) s' o'

  pub record IsRepository (Valid : S → Type 0) : Type 0 where
    pub recorded_valid :
        (meta : EventMeta) (decide : Decide PushOutcome) (s : S) (o : PushOutcome)
        → Valid s
        → Valid (repo.record_in meta decide s o).0.1
    pub recorded :
        (meta : EventMeta) (decide : Decide PushOutcome) (s : S) (o : PushOutcome)
        → Valid s
        → Records meta decide s o
            (repo.record_in meta decide s o).0.0
            (repo.record_in meta decide s o).0.1
            (repo.record_in meta decide s o).1
    pub again :
        (meta : EventMeta) (decide decide' : Decide PushOutcome) (s s' : S) (o o' p : PushOutcome)
        (state : ExecutionState)
        → Valid s
        → repo.record_in meta decide s o ≡ ((ok state, s'), o')
        → is_retry (records s') meta ≡ true
        → repo.record_in meta decide' s' p ≡ ((ok state, s'), p)
    pub added_valid : (c : Conflict) (s : S) → Valid s → Valid (repo.add_conflict c s).1
    pub added_records :
        (c : Conflict) (s : S) → Valid s → records (repo.add_conflict c s).1 ≡ records s
    pub added :
        (c : Conflict) (s : S) (event_id : ℕ)
        → Valid s
        → c.entry.meta.event_id ≡ some event_id
        → (repo.add_conflict c s).0 ≡ ok tt
        → (other : ℕ)
        → any (repo.conflicts (repo.add_conflict c s).1) (is_of other)
          ≡ any (repo.conflicts s) (is_of other) || is_of other c
    -- A conflict about an event of which one is kept changes nothing, and another one is added once.
    pub added_known :
        (c : Conflict) (s : S) (event_id : ℕ)
        → Valid s
        → c.entry.meta.event_id ≡ some event_id
        → any (repo.conflicts s) (is_of event_id) ≡ true
        → repo.conflicts (repo.add_conflict c s).1 ≡ repo.conflicts s
    pub added_once :
        (c : Conflict) (s : S) (event_id : ℕ)
        → Valid s
        → c.entry.meta.event_id ≡ some event_id
        → any (repo.conflicts s) (is_of event_id) ≡ false
        → (repo.add_conflict c s).0 ≡ ok tt
        → (p : Conflict → Bool)
        → count (repo.conflicts (repo.add_conflict c s).1) p
          ≡ count (record c { resolved = none } ∷ repo.conflicts s) p
    pub not_added :
        (c : Conflict) (s : S) (e : String)
        → (repo.add_conflict c s).0 ≡ err e
        → (repo.add_conflict c s).1 ≡ s
