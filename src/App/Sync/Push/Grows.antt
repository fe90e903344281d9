-- ===== src/App/Sync/Push/Grows.antt =====
-- crates/procnote-app/src/sync.rs: lemmas on what a push keeps.
use procnote.Prelude.{
  ℕ, String, Bool, true, false, ◌≡◌, refl, ap, sym, subst, ◌∙◌, Option, none, some, List, [], ◌++◌,
  Result, ok, err, any, any-append, or_true_left, is_some, if◌then◌else◌,
}
use mathlib.Core.List.{append-nil}
use procnote.Event.{Timestamp, ExecutionId, EventMeta, EventRecord}
use procnote.Execution.State.{ExecutionState}
use procnote.App.Repository.{StagedFile, Decide}
use procnote.App.Sync.Conflicts.{PushOutcome, recorded, duplicate, conflicting, rejected}
use procnote.App.Sync.Push.{
  Repository, conflict_of, keep_conflict, push_recorded, has_conflict, decide_push, push_unless,
  push_named, push_event,
}
use procnote.App.Sync.Push.Laws.{Records, IsRepository}
use procnote.Store.Outbox.{id_eq}
use procnote.Store.Directory.{is_retry}
use procnote.Store.ConflictLog.{is_of}

is_retry-append :
    (records more : List EventRecord) (meta : EventMeta)
    → is_retry records meta ≡ true
    → is_retry (records ++ more) meta ≡ true
unfolding is_retry
is_retry-append records more meta h = go meta.event_id h
  where
    go :
        (x : Option ℕ)
        → (if is_some x then any records (λ r. id_eq r.meta.event_id x) else false) ≡ true
        → (if is_some x then any (records ++ more) (λ r. id_eq r.meta.event_id x) else false) ≡ true
    go none h = h
    go (some i) h = any-append records more _ ∙ or_true_left _ _ h

module _ {S : Type 0} (repo : Repository S) (records : S → List EventRecord) (Valid : S → Type 0)
    (laws : IsRepository repo records Valid) (show_id : ExecutionId → String)
    (id : ExecutionId) where
  -- What is recorded or kept as a conflict stays so.
  pub record Grows (s s' : S) : Type 0 where
    pub valid : Valid s'
    pub held :
        (meta : EventMeta) → is_retry (records s) meta ≡ true → is_retry (records s') meta ≡ true
    pub conflicts :
        (event_id : ℕ) → has_conflict repo event_id s ≡ true → has_conflict repo event_id s' ≡ true

  pub Grows-refl : (s : S) → Valid s → Grows s s
  Grows-refl s v = record { valid = v; held = λ meta h. h; conflicts = λ i h. h }

  pub Grows-trans : {a b c : S} → Grows a b → Grows b c → Grows a c
  Grows-trans h k = record {
    valid = k.valid;
    held = λ meta x. k.held meta (h.held meta x);
    conflicts = λ i x. k.conflicts i (h.conflicts i x);
  }

  Grows-append :
      (s s' : S) (more : List EventRecord)
      → Valid s'
      → records s' ≡ records s ++ more
      → repo.conflicts s' ≡ repo.conflicts s
      → Grows s s'
  unfolding has_conflict
  Grows-append s s' more v grown confs = record {
    valid = v;
    held = λ meta h. ap (λ l. is_retry l meta) grown ∙ is_retry-append (records s) more meta h;
    conflicts = λ i h. ap (λ l. any l (is_of i)) confs ∙ h;
  }

  recorded-Grows :
      {meta : EventMeta} {decide : Decide PushOutcome} {s : S} {o : PushOutcome}
      {x : Result String ExecutionState} {s' : S} {o' : PushOutcome}
      → Valid s'
      → Records repo records meta decide s o x s' o'
      → Grows s s'
  recorded-Grows v (Records.failed e s' o' held confs) =
      Grows-append _ s' [] v (held ∙ sym (append-nil _)) confs
  recorded-Grows v (Records.retried state retry) = Grows-refl _ v
  recorded-Grows v (Records.done before state d s' o' first decided grown confs) =
      Grows-append _ s' _ v grown confs

  keep_conflict-Grows :
      (r : EventRecord) (now : Timestamp) (outcome : PushOutcome) (s : S) (event_id : ℕ)
      → r.meta.event_id ≡ some event_id
      → Valid s
      → Grows s (keep_conflict repo r now outcome s).1
  unfolding keep_conflict has_conflict conflict_of
  keep_conflict-Grows r now recorded s i named v = Grows-refl s v
  keep_conflict-Grows r now duplicate s i named v = Grows-refl s v
  keep_conflict-Grows r now (rejected reason) s i named v = Grows-refl s v
  keep_conflict-Grows r now (conflicting reason) s i named v =
      go (repo.add_conflict (conflict_of r reason now) s).0 refl
    where
      go :
          (x : Result String (Unit {0}))
          → (repo.add_conflict (conflict_of r reason now) s).0 ≡ x
          → Grows s (repo.add_conflict (conflict_of r reason now) s).1
      go (err e) h =
          subst (Grows s) (sym (laws.not_added (conflict_of r reason now) s e h)) (Grows-refl s v)
      go (ok _) h = record {
        valid = laws.added_valid (conflict_of r reason now) s v;
        held = λ meta k.
            ap (λ l. is_retry l meta) (laws.added_records (conflict_of r reason now) s v) ∙ k;
        conflicts = λ other k.
            laws.added (conflict_of r reason now) s i v named h other ∙ or_true_left _ _ k;
      }

  push_recorded-Grows :
      (r : EventRecord) (now : Timestamp) (x : Result String ExecutionState) (outcome : PushOutcome)
      (s : S) (event_id : ℕ)
      → r.meta.event_id ≡ some event_id
      → Valid s
      → Grows s (push_recorded repo r now x outcome s).1
  unfolding push_recorded
  push_recorded-Grows r now (ok _) outcome s i named v =
      keep_conflict-Grows r now outcome s i named v
  push_recorded-Grows r now (err e) outcome s i named v = Grows-refl s v

  push_named-Grows :
      (r : EventRecord) (uploaded : List StagedFile) (now : Timestamp) (s : S) (name : Option ℕ)
      → r.meta.event_id ≡ name
      → Valid s
      → Grows s (push_named repo show_id id name r uploaded now s).1
  unfolding push_named
  push_named-Grows r uploaded now s none named v = Grows-refl s v
  push_named-Grows r uploaded now s (some i) named v = go (has_conflict repo i s)
    where
      go : (b : Bool) → Grows s (push_unless repo show_id id b r uploaded now s).1
      go true = unfold push_unless in Grows-refl s v
      go false =
          unfold push_unless in
          let decide = decide_push repo show_id id r uploaded in
          let v' = laws.recorded_valid r.meta decide s duplicate v in
          Grows-trans (recorded-Grows v' (laws.recorded r.meta decide s duplicate v))
            (push_recorded-Grows r now _ _ _ i named v')

  pub push_event-Grows :
      (r : EventRecord) (uploaded : List StagedFile) (now : Timestamp) (s : S)
      → Valid s
      → Grows s (push_event repo show_id id r uploaded now s).1
  unfolding push_event
  push_event-Grows r uploaded now s v = push_named-Grows r uploaded now s r.meta.event_id refl v
