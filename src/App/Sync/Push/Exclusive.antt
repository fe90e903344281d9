-- ===== src/App/Sync/Push/Exclusive.antt =====
-- crates/procnote-app/src/sync.rs: lemmas on where a pushed event is kept.
use procnote.Prelude.{
  ℕ, String, Bool, true, false, ◌||◌, ◌&&◌, Bool-cases, and_left, and_right, ◌≡◌, refl, ap, sym,
  subst, ◌∙◌, ◌⊎◌, inl, inr, Option, none, some, List, [], ◌∷◌, ◌++◌, arith, Result, ok, err, any,
  any-append, nat_eq_sound,
}
use mathlib.Core.List.{append-nil}
use procnote.Event.{Timestamp, ExecutionId, Event, EventRecord}
use procnote.Execution.State.{ExecutionState}
use procnote.App.Repository.{StagedFile, Decision}
use procnote.App.Sync.{Pushed, record_event, conflict, decide_pushed}
use procnote.App.Sync.Decided.{IsDecided, decide_pushed-IsDecided}
use procnote.App.Sync.Conflicts.{PushOutcome, recorded, duplicate, conflicting, rejected}
use procnote.App.Sync.Push.{
  Repository, outcome_of, conflict_of, keep_conflict, push_recorded, has_conflict, decide_push,
  push_unless, push_named, push_event,
}
use procnote.App.Sync.Push.Again.{is_retry-named}
use procnote.App.Sync.Push.Laws.{Records, IsRepository}
use procnote.Store.Outbox.{id_eq}
use procnote.Store.Directory.{is_retry, stamped}
use procnote.Store.ConflictLog.{is_of}

-- An event with this ID is among the records.
unfoldable pub has_record : ℕ → List EventRecord → Bool
unfolding id_eq
has_record event_id records = any records (λ q. id_eq q.meta.event_id (some event_id))

id_eq_sound : (x : Option ℕ) (a : ℕ) → id_eq x (some a) ≡ true → x ≡ some a
unfolding id_eq
id_eq_sound none a h = cc
id_eq_sound (some b) a h = ap some (nat_eq_sound b a h)

some_injective : {a b : ℕ} → ◌≡◌ {A = Option ℕ} (some a) (some b) → a ≡ b
some_injective h = ground arith

or_cases : (a b : Bool) → a || b ≡ true → (a ≡ true) ⊎ (b ≡ true)
or_cases true b h = inl refl
or_cases false b h = inr h

module _ {S : Type 0} (repo : Repository S) (records : S → List EventRecord) (Valid : S → Type 0)
    (laws : IsRepository repo records Valid) (show_id : ExecutionId → String)
    (id : ExecutionId) where
  -- No event is both in the log and among the conflicts.
  abbrev pub Exclusive : S → Type 0
  Exclusive s =
      (event_id : ℕ)
      → has_record event_id (records s) ≡ true
      → has_conflict repo event_id s ≡ true
      → ⊥

  abbrev pub in_both : ℕ → S → Bool
  in_both event_id s = has_record event_id (records s) && has_conflict repo event_id s

  both-Exclusive : (s : S) → ((event_id : ℕ) → in_both event_id s ≡ false) → Exclusive s
  both-Exclusive s x event_id there conflicts =
      let apart : in_both event_id s ≡ false = x event_id in
      let both : in_both event_id s ≡ true = rw (there, conflicts) refl in cc

  Exclusive-same :
      (s s' : S)
      → records s' ≡ records s
      → repo.conflicts s' ≡ repo.conflicts s
      → Exclusive s
      → Exclusive s'
  unfolding has_conflict
  Exclusive-same s s' e c x event_id there conflicts =
      x event_id (ap (has_record event_id) (sym e) ∙ there)
        (ap (λ l. any l (is_of event_id)) (sym c) ∙ conflicts)

  module _ (r : EventRecord) where
    -- The records grow by an event that is not among the conflicts.
    Exclusive-recorded :
        (s s' : S) (events : List Event)
        → ((event_id : ℕ) → r.meta.event_id ≡ some event_id → has_conflict repo event_id s ≡ false)
        → events ≡ r.event ∷ []
        → records s' ≡ records s ++ stamped r.meta events
        → repo.conflicts s' ≡ repo.conflicts s
        → Exclusive s
        → Exclusive s'
    unfolding has_conflict has_record stamped
    Exclusive-recorded s s' events fresh one grown c x event_id there conflicts =
        let same : has_conflict repo event_id s ≡ true =
          ap (λ l. any l (is_of event_id)) (sym c) ∙ conflicts in
        let split : any (records s) (λ q. id_eq q.meta.event_id (some event_id))
              || (id_eq r.meta.event_id (some event_id) || false)
            ≡ true =
          sym (any-append (records s) (stamped r.meta (r.event ∷ [])) _)
          ∙ ap (has_record event_id) (sym (grown ∙ ap (λ l. records s ++ stamped r.meta l) one))
          ∙ there in
        elim (or_cases _ _ split) [
          | inl held ↦ x event_id held same
          | inr new ↦
              let own : id_eq r.meta.event_id (some event_id) ≡ true = ground arith in
              let fresh' : has_conflict repo event_id s ≡ false =
                fresh event_id (id_eq_sound r.meta.event_id event_id own) in
              cc
        ]

    -- The conflicts grow by an event that is not in the log.
    Exclusive-added :
        (now : Timestamp) (reason : String) (s : S)
        → Valid s
        → ((event_id : ℕ)
            → r.meta.event_id ≡ some event_id
            → has_record event_id (records s) ≡ false)
        → ((event_id : ℕ) × (r.meta.event_id ≡ some event_id))
        → Exclusive s
        → Exclusive (keep_conflict repo r now (conflicting reason) s).1
    unfolding keep_conflict conflict_of has_conflict is_of
    Exclusive-added now reason s v fresh named x =
        go (repo.add_conflict (conflict_of r reason now) s).0 refl
      where
        go :
            (a : Result String (Unit {0}))
            → (repo.add_conflict (conflict_of r reason now) s).0 ≡ a
            → Exclusive (repo.add_conflict (conflict_of r reason now) s).1
        go (err e) h = subst Exclusive (sym (laws.not_added (conflict_of r reason now) s e h)) x
        go (ok _) h = λ event_id there conflicts.
            let held : has_record event_id (records s) ≡ true =
              ap (has_record event_id) (sym (laws.added_records (conflict_of r reason now) s v))
              ∙ there in
            let split : has_conflict repo event_id s || is_of event_id (conflict_of r reason now)
                ≡ true =
              sym (laws.added (conflict_of r reason now) s named.0 v named.1 h event_id)
              ∙ conflicts in
            elim (or_cases _ _ split) [
              | inl known ↦ x event_id held known
              | inr new ↦
                  let none_held : has_record event_id (records s) ≡ false =
                    fresh event_id (id_eq_sound r.meta.event_id event_id new) in
                  cc
            ]

    not_recorded :
        (s : S)
        → is_retry (records s) r.meta ≡ false
        → (event_id : ℕ) → r.meta.event_id ≡ some event_id
        → has_record event_id (records s) ≡ false
    unfolding has_record
    not_recorded s h event_id named =
        sym (is_retry-named repo records Valid laws show_id id r event_id named (records s)) ∙ h

    -- A decision with no events leaves the records.
    no_events :
        (s s' : S) (events : List Event)
        → events ≡ []
        → records s' ≡ records s ++ stamped r.meta events
        → records s' ≡ records s
    unfolding stamped
    no_events s s' events none_there grown =
        grown ∙ ap (λ l. records s ++ stamped r.meta l) none_there ∙ append-nil (records s)

    abbrev Leaves : Timestamp → S → PushOutcome → Type 0
    Leaves now s o = Exclusive (keep_conflict repo r now o s).1

    module _ (event_id : ℕ) (named : r.meta.event_id ≡ some event_id) where
      done-Exclusive :
          (uploaded : List StagedFile) (now : Timestamp) (s s' : S) (before : ExecutionState)
          (d : Decision) (o' : PushOutcome)
          → Valid s'
          → has_conflict repo event_id s ≡ false
          → is_retry (records s) r.meta ≡ false
          → decide_push repo show_id id r uploaded before duplicate ≡ (ok d, o')
          → records s' ≡ records s ++ stamped r.meta d.events
          → repo.conflicts s' ≡ repo.conflicts s
          → Exclusive s
          → Exclusive (keep_conflict repo r now o' s').1
      unfolding decide_push outcome_of keep_conflict
      done-Exclusive uploaded now s s' before d o' v' fresh retry decided grown confs x =
          go (decide_pushed show_id id before r uploaded) refl
        where
          own_fresh : (i : ℕ) → r.meta.event_id ≡ some i → has_conflict repo i s ≡ false
          own_fresh i n =
              let e : event_id ≡ i = some_injective (sym named ∙ n) in
              subst (λ j. has_conflict repo j s ≡ false) e fresh

          go :
              (p : Result String Pushed)
              → decide_pushed show_id id before r uploaded ≡ p
              → Leaves now s' o'
          go (ok (record_event d')) h =
              let q : ◌≡◌ {A = Result String Decision × PushOutcome} (ok d', recorded) (ok d, o') =
                ap outcome_of (sym h) ∙ decided in
              let same : d' ≡ d = ground arith in
              let one : d'.events ≡ r.event ∷ [] =
                (subst (IsDecided id before r) h
                  (decide_pushed-IsDecided show_id id before r uploaded)).1 in
              subst (Leaves now s') (ap (λ x. x.1) q) (
                Exclusive-recorded s s' d.events own_fresh (ap (λ x. x.events) (sym same) ∙ one)
                  grown confs x)
          go (ok (conflict reason files)) h =
              let q : ◌≡◌ {A = Result String Decision × PushOutcome}
                  (ok (record { events = []; files = files }), conflicting reason) (ok d, o') =
                ap outcome_of (sym h) ∙ decided in
              let empty : d.events ≡ [] = ground arith in
              let held : records s' ≡ records s = no_events s s' d.events empty grown in
              subst (Leaves now s') (ap (λ x. x.1) q) (
                Exclusive-added now reason s' v'
                  (λ i n. ap (has_record i) held ∙ not_recorded s retry i n) (event_id, named)
                  (Exclusive-same s s' held confs x))
          go (err reason) h =
              let q : ◌≡◌ {A = Result String Decision × PushOutcome}
                  (ok (record { events = []; files = [] }), rejected reason) (ok d, o') =
                ap outcome_of (sym h) ∙ decided in
              let empty : d.events ≡ [] = ground arith in
              subst (Leaves now s') (ap (λ x. x.1) q)
                (Exclusive-same s s' (no_events s s' d.events empty grown) confs x)

      records-Exclusive :
          (uploaded : List StagedFile) (now : Timestamp) (s : S) {x : Result String ExecutionState}
          {s' : S} {o' : PushOutcome}
          → Valid s'
          → has_conflict repo event_id s ≡ false
          → Exclusive s
          → Records repo records r.meta (decide_push repo show_id id r uploaded) s duplicate x s' o'
          → Exclusive (push_recorded repo r now x o' s').1
      unfolding push_recorded keep_conflict
      records-Exclusive uploaded now s v' fresh x (Records.failed e s' o' held confs) =
          Exclusive-same s s' held confs x
      records-Exclusive uploaded now s v' fresh x (Records.retried state retry) = x
      records-Exclusive uploaded now s v' fresh x
            (Records.done before state d s' o' new decided grown confs) =
          done-Exclusive uploaded now s s' before d o' v' fresh new decided grown confs x

    push_named-Exclusive :
        (uploaded : List StagedFile) (now : Timestamp) (s : S) (name : Option ℕ)
        → r.meta.event_id ≡ name
        → Valid s
        → Exclusive s
        → Exclusive (push_named repo show_id id name r uploaded now s).1
    unfolding push_named push_unless
    push_named-Exclusive uploaded now s none e v x = x
    push_named-Exclusive uploaded now s (some event_id) e v x =
        go (has_conflict repo event_id s) refl
      where
        go :
            (b : Bool)
            → has_conflict repo event_id s ≡ b
            → Exclusive (push_unless repo show_id id b r uploaded now s).1
        go true h = x
        go false h =
            records-Exclusive event_id e uploaded now s
              (laws.recorded_valid r.meta (decide_push repo show_id id r uploaded) s duplicate v) h
              x (laws.recorded r.meta (decide_push repo show_id id r uploaded) s duplicate v)

    push_event-Exclusive :
        (uploaded : List StagedFile) (now : Timestamp) (s : S)
        → Valid s
        → Exclusive s
        → Exclusive (push_event repo show_id id r uploaded now s).1
    unfolding push_event
    push_event-Exclusive uploaded now s v x =
        push_named-Exclusive uploaded now s r.meta.event_id refl v x

    -- Pushing any event, with or without an ID, and with any outcome: if no event was both in the log
    -- and among the conflicts, none is.
    pub push_event-in_both :
        (uploaded : List StagedFile) (now : Timestamp) (s : S)
        → Valid s
        → ((event_id : ℕ) → in_both event_id s ≡ false)
        → (event_id : ℕ) → in_both event_id (push_event repo show_id id r uploaded now s).1 ≡ false
    push_event-in_both uploaded now s v x event_id =
        let s' = (push_event repo show_id id r uploaded now s).1 in
        elim (Bool-cases (in_both event_id s')) [
          | inr apart ↦ apart
          | inl both ↦ absurd (
              push_event-Exclusive uploaded now s v (both-Exclusive s x) event_id
                (and_left (has_record event_id (records s')) (has_conflict repo event_id s') both)
                (and_right (has_record event_id (records s')) (has_conflict repo event_id s') both))
        ]
