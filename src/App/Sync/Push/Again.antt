-- ===== src/App/Sync/Push/Again.antt =====
-- crates/procnote-app/src/sync.rs: lemmas on an event that is pushed again.
use procnote.Prelude.{
  ℕ, String, Bool, true, false, ◌≡◌, refl, ap, sym, subst, ◌∙◌, ◌⊎◌, inl, inr, some, List, [], ◌∷◌,
  ◌++◌, arith, Result, ok, err, any, any-append, nat_eq_refl, or_true_left, or_true_right,
  if◌then◌else◌, is_some,
}
use procnote.Event.{Timestamp, ExecutionId, Event, EventRecord}
use procnote.Execution.State.{ExecutionState}
use procnote.App.Repository.{StagedFile, Decision, Decide}
use procnote.App.Sync.{Pushed, record_event, conflict, decide_pushed}
use procnote.App.Sync.Decided.{IsDecided, decide_pushed-IsDecided}
use procnote.App.Sync.Conflicts.{PushOutcome, recorded, duplicate, conflicting, rejected}
use procnote.App.Sync.Push.{
  Repository, outcome_of, conflict_of, kept, keep_conflict, push_recorded, has_conflict,
  decide_push, push_unless, push_named, push_event,
}
use procnote.App.Sync.Push.Laws.{Records, IsRepository}
use procnote.Store.Outbox.{id_eq}
use procnote.Store.Directory.{is_retry, stamped}
use procnote.Store.ConflictLog.{is_of}

-- The event has been dealt with, and stands in the log or among the conflicts.
abbrev pub IsAccepted : PushOutcome → Type 0
IsAccepted recorded = Unit
IsAccepted duplicate = Unit
IsAccepted (conflicting reason) = Unit
IsAccepted (rejected reason) = ⊥

module _ {S : Type 0} (repo : Repository S) (records : S → List EventRecord) (Valid : S → Type 0)
    (laws : IsRepository repo records Valid) (show_id : ExecutionId → String) (id : ExecutionId)
    (r : EventRecord) (event_id : ℕ) (named : r.meta.event_id ≡ some event_id) where
  abbrev pub Held : S → Type 0
  Held s = (is_retry (records s) r.meta ≡ true) ⊎ (has_conflict repo event_id s ≡ true)

  -- Whatever is sent with it, pushing the event does nothing.
  abbrev pub IsSettled : S → Type 0
  IsSettled s =
      (uploaded : List StagedFile) (now : Timestamp)
      → push_event repo show_id id r uploaded now s ≡ (ok duplicate, s)

  push_event-named :
      (uploaded : List StagedFile) (now : Timestamp) (s : S) (b : Bool)
      → has_conflict repo event_id s ≡ b
      → push_event repo show_id id r uploaded now s ≡ push_unless repo show_id id b r uploaded now s
  unfolding push_event push_named
  push_event-named uploaded now s b h =
      ap (λ x. push_named repo show_id id x r uploaded now s) named
      ∙ ap (λ x. push_unless repo show_id id x r uploaded now s) h

  kept_conflict-IsSettled : (s : S) → has_conflict repo event_id s ≡ true → IsSettled s
  unfolding push_unless
  kept_conflict-IsSettled s h uploaded now = push_event-named uploaded now s true h

  abbrev deciding : List StagedFile → Decide PushOutcome
  deciding = decide_push repo show_id id r

  recorded-IsSettled :
      (s s' : S) (decide : Decide PushOutcome) (o o' : PushOutcome) (state : ExecutionState)
      → Valid s
      → repo.record_in r.meta decide s o ≡ ((ok state, s'), o')
      → is_retry (records s') r.meta ≡ true
      → has_conflict repo event_id s' ≡ false
      → IsSettled s'
  unfolding push_unless push_recorded keep_conflict
  recorded-IsSettled s s' decide o o' state v e retry fresh uploaded now =
      push_event-named uploaded now s' false fresh
      ∙ ap (λ x. push_recorded repo r now x.0.0 x.1 x.0.1)
          (laws.again r.meta decide (deciding uploaded) s s' o o' duplicate state v e retry)

  -- What a push leaves: the event stands in the log or among the conflicts for good, unless it was
  -- refused or the repository failed.
  abbrev pub Pushes : Result String PushOutcome → S → Type 0
  Pushes (ok outcome) s' = IsAccepted outcome → Held s' × IsSettled s'
  Pushes (err e) s' = Unit

  is_of_self :
      (reason : String) (now : Timestamp) → is_of event_id (conflict_of r reason now) ≡ true
  unfolding is_of id_eq conflict_of
  is_of_self reason now = ap (λ x. id_eq x (some event_id)) named ∙ nat_eq_refl event_id

  added :
      (reason : String) (now : Timestamp) (s : S)
      → Valid s
      → (repo.add_conflict (conflict_of r reason now) s).0 ≡ ok tt
      → has_conflict repo event_id (repo.add_conflict (conflict_of r reason now) s).1 ≡ true
  unfolding has_conflict conflict_of
  added reason now s v e =
      laws.added (conflict_of r reason now) s event_id v named e event_id
      ∙ or_true_right _ _ (is_of_self reason now)

  keep_conflict-Pushes :
      (now : Timestamp) (reason : String) (s : S)
      → Valid s
      → Pushes
          (keep_conflict repo r now (conflicting reason) s).0
          (keep_conflict repo r now (conflicting reason) s).1
  unfolding keep_conflict
  keep_conflict-Pushes now reason s v = go (repo.add_conflict (conflict_of r reason now) s).0 refl
    where
      go :
          (x : Result String (Unit {0}))
          → (repo.add_conflict (conflict_of r reason now) s).0 ≡ x
          → Pushes
              (kept repo (conflicting reason) x)
              (repo.add_conflict (conflict_of r reason now) s).1
      go (ok _) e =
          unfold kept in
          λ _.
            let there : has_conflict repo event_id
                  (repo.add_conflict (conflict_of r reason now) s).1
                ≡ true =
              added reason now s v e in
            (inr there, kept_conflict-IsSettled _ there)
      go (err x) e = unfold kept in tt

  pub is_retry-named :
      (held : List EventRecord)
      → is_retry held r.meta ≡ any held (λ q. id_eq q.meta.event_id (some event_id))
  unfolding is_retry
  is_retry-named held =
      ap (λ x. if is_some x then any held (λ q. id_eq q.meta.event_id x) else false) named

  -- Once an event is recorded with its metadata, pushing it is a retry.
  is_retry-stamped :
      (held : List EventRecord) (events : List Event)
      → events ≡ r.event ∷ []
      → is_retry (held ++ stamped r.meta events) r.meta ≡ true
  unfolding stamped id_eq
  is_retry-stamped held events one =
      ap (λ l. is_retry (held ++ stamped r.meta l) r.meta) one
      ∙ is_retry-named (held ++ stamped r.meta (r.event ∷ []))
      ∙ any-append held (stamped r.meta (r.event ∷ [])) _
      ∙ or_true_right _ _
          (or_true_left _ false (ap (λ x. id_eq x (some event_id)) named ∙ nat_eq_refl event_id))

  abbrev Answers : Result String ExecutionState → S → PushOutcome → Timestamp → Type 0
  Answers x s' o' now =
      Pushes (push_recorded repo r now x o' s').0 (push_recorded repo r now x o' s').1

  done-Pushes :
      (uploaded : List StagedFile) (now : Timestamp) (s s' : S) (state before : ExecutionState)
      (d : Decision) (o' : PushOutcome)
      → Valid s
      → Valid s'
      → has_conflict repo event_id s' ≡ false
      → repo.record_in r.meta (deciding uploaded) s duplicate ≡ ((ok state, s'), o')
      → deciding uploaded before duplicate ≡ (ok d, o')
      → records s' ≡ records s ++ stamped r.meta d.events
      → Answers (ok state) s' o' now
  unfolding decide_push outcome_of push_recorded keep_conflict
  done-Pushes uploaded now s s' state before d o' v v' fresh e decided grown =
      go (decide_pushed show_id id before r uploaded) refl
    where
      go :
          (p : Result String Pushed)
          → decide_pushed show_id id before r uploaded ≡ p
          → Answers (ok state) s' o' now
      go (ok (record_event d')) h =
          let q : ◌≡◌ {A = Result String Decision × PushOutcome} (ok d', recorded) (ok d, o') =
            ap outcome_of (sym h) ∙ decided in
          let same : d' ≡ d = ground arith in
          let one : d'.events ≡ r.event ∷ [] =
            (subst (IsDecided id before r) h
              (decide_pushed-IsDecided show_id id before r uploaded)).1 in
          let retry : is_retry (records s') r.meta ≡ true =
            ap (λ l. is_retry l r.meta) grown
            ∙ is_retry-stamped (records s) d.events (ap (λ x. x.events) (sym same) ∙ one) in
          subst (λ o. Answers (ok state) s' o now) (ap (λ x. x.1) q)
            λ _. (
              inl retry,
              recorded-IsSettled s s' (deciding uploaded) duplicate o' state v e retry fresh,
            )
      go (ok (conflict reason files)) h =
          subst (λ o. Answers (ok state) s' o now) (ap (λ x. x.1) (ap outcome_of (sym h) ∙ decided))
            (keep_conflict-Pushes now reason s' v')
      go (err reason) h =
          subst (λ o. Answers (ok state) s' o now) (ap (λ x. x.1) (ap outcome_of (sym h) ∙ decided))
            λ no. absurd no

  records-Answers :
      (uploaded : List StagedFile) (now : Timestamp) (s : S) {x : Result String ExecutionState}
      {s' : S} {o' : PushOutcome}
      → Valid s
      → Valid s'
      → has_conflict repo event_id s ≡ false
      → repo.record_in r.meta (deciding uploaded) s duplicate ≡ ((x, s'), o')
      → Records repo records r.meta (deciding uploaded) s duplicate x s' o'
      → Answers x s' o' now
  unfolding push_recorded keep_conflict has_conflict
  records-Answers uploaded now s v v' fresh e (Records.failed x s' o' held confs) = tt
  records-Answers uploaded now s v v' fresh e (Records.retried state retry) = λ _. (
    inl retry,
    recorded-IsSettled s s (deciding uploaded) duplicate duplicate state v e retry fresh,
  )
  records-Answers uploaded now s v v' fresh e
        (Records.done before state d s' o' _ decided grown confs) =
      done-Pushes uploaded now s s' state before d o' v v'
        (ap (λ l. any l (is_of event_id)) confs ∙ fresh) e decided grown

  -- An event with an ID that was pushed and not refused is in the log or among the conflicts, and stays
  -- dealt with: pushed again, at any time and with any uploads, it is answered as a duplicate, and the
  -- execution is as it was. So a device that lost the answer may push again.
  pub push_event-again :
      (uploaded : List StagedFile) (now : Timestamp) (s : S)
      → Valid s
      → Pushes
          (push_event repo show_id id r uploaded now s).0
          (push_event repo show_id id r uploaded now s).1
  unfolding push_unless
  push_event-again uploaded now s v = go (has_conflict repo event_id s) refl
    where
      go :
          (b : Bool)
          → has_conflict repo event_id s ≡ b
          → Pushes
              (push_event repo show_id id r uploaded now s).0
              (push_event repo show_id id r uploaded now s).1
      go true h =
          rw (push_event-named uploaded now s true h, push_unless)
            λ _. (inr h, kept_conflict-IsSettled s h)
      go false h =
          rw (push_event-named uploaded now s false h, push_unless)
            (records-Answers uploaded now s v
              (laws.recorded_valid r.meta (deciding uploaded) s duplicate v) h refl
              (laws.recorded r.meta (deciding uploaded) s duplicate v))
