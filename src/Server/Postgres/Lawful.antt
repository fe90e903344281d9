-- ===== src/Server/Postgres/Lawful.antt =====
-- crates/procnote-server/src/postgres.rs: lemmas on the database as a repository.
use procnote.Prelude.{
  ℕ, String, Bool, true, false, ◌||◌, ◌≡◌, refl, ap, subst, ◌∙◌, inl, inr, Option, none, some, List,
  [], ◌∷◌, arith, Result, ok, err, any, count, Bool-cases, append, absorbs,
}
use procnote.Event.{EventMeta}
use procnote.Execution.State.{ExecutionState}
use procnote.App.Repository.{Decision, Decide}
use procnote.App.Sync.Conflicts.{Conflict, PushOutcome}
use procnote.App.Sync.Push.{Repository}
use procnote.App.Sync.Push.Laws.{Records, IsRepository}
use procnote.Store.ConflictLog.{is_of, is_of-other}
use procnote.Store.Directory.{is_retry}
use procnote.Server.Postgres.{
  Rows, replay, record_decided, record_unless, record_on, read_locked, record_async, is_before,
  place, insert_conflict, add_named, add_conflict, postgres_repository,
}
use procnote.Server.Postgres.Stored.{Committed, record_some-Committed}

module _ (sha256_hex : List ℕ → String) (read_source : String → Result String (List ℕ))
    (id : String) where
  abbrev repo : Repository Rows
  repo = postgres_repository sha256_hex read_source id

  -- The decision goes on from the state of the rows, and they are read as the state that comes back.
  abbrev Recorded :
      EventMeta
      → Decide PushOutcome
      → Rows
      → PushOutcome
      → Result String ExecutionState
      → Rows
      → PushOutcome
      → Type 0
  Recorded meta decide rows o r rows' o' =
      Records repo (λ rows. rows.events) meta decide rows o r rows' o'
      × (rows'.exists ≡ rows.exists)
      × ((s : ExecutionState) → r ≡ ok s → replay rows'.events ≡ ok s)

  decided-Recorded :
      (meta : EventMeta) (decide : Decide PushOutcome) (s : ExecutionState) (rows : Rows)
      (o o' : PushOutcome) (r : Result String Decision)
      → replay rows.events ≡ ok s
      → is_retry rows.events meta ≡ false
      → decide s o ≡ (r, o')
      → Recorded meta decide rows o
          (record_decided sha256_hex read_source id meta s r rows).0
          (record_decided sha256_hex read_source id meta s r rows).1
          o'
  unfolding record_decided postgres_repository
  decided-Recorded meta decide s rows o o' (err e) h first decided =
      (Records.failed e rows o' refl refl, refl, λ t q. cc)
  decided-Recorded meta decide s rows o o' (ok d) h first decided =
      go _ _ (record_some-Committed sha256_hex read_source id _ meta d s rows refl h)
    where
      go :
          (x : Result String ExecutionState) (rows' : Rows)
          → Committed meta d rows x rows'
          → Recorded meta decide rows o x rows' o'
      go (ok t) rows' (there, grown, confs, replays) =
          (Records.done s t d rows' o' first decided grown confs, there, λ t' q. replays ∙ q)
      go (err e) rows' (there, same, confs, kept) =
          (Records.failed e rows' o' same confs, there, λ t q. cc)

  read_locked-there :
      (rows : Rows) (s : ExecutionState)
      → read_locked sha256_hex read_source id rows ≡ ok s
      → (rows.exists ≡ true) × (replay rows.events ≡ ok s)
  unfolding read_locked
  read_locked-there rows s h = elim (Bool-cases rows.exists) [
    | inl there ↦ (there, simp there at h)
    | inr missing ↦ absurd (no (simp missing at h))
  ]
    where
      no : err (append "Execution not found: " id) ≡ ok s → ⊥
      no h = cc

  there-read_locked :
      (rows : Rows) (s : ExecutionState)
      → rows.exists ≡ true
      → replay rows.events ≡ ok s
      → read_locked sha256_hex read_source id rows ≡ ok s
  unfolding read_locked
  there-read_locked rows s there h = simp (there, h)

  -- A call that answers with a state leaves rows that read as it.
  abbrev Leaves :
      EventMeta
      → Decide PushOutcome
      → Rows
      → PushOutcome
      → Result String ExecutionState
      → Rows
      → PushOutcome
      → Type 0
  Leaves meta decide rows o r rows' o' =
      Records repo (λ rows. rows.events) meta decide rows o r rows' o'
      × ((s : ExecutionState) → r ≡ ok s → read_locked sha256_hex read_source id rows' ≡ ok s)

  record_unless-Leaves :
      (meta : EventMeta) (decide : Decide PushOutcome) (retry : Bool) (s : ExecutionState)
      (rows : Rows) (o : PushOutcome)
      → read_locked sha256_hex read_source id rows ≡ ok s
      → is_retry rows.events meta ≡ retry
      → Leaves meta decide rows o
          (record_unless sha256_hex read_source id meta decide retry s rows o).0.0
          (record_unless sha256_hex read_source id meta decide retry s rows o).0.1
          (record_unless sha256_hex read_source id meta decide retry s rows o).1
  unfolding record_unless
  record_unless-Leaves meta decide true s rows o h retry = (Records.retried s retry, λ t q. h ∙ q)
  record_unless-Leaves meta decide false s rows o h first =
      let (there, replays) = read_locked-there rows s h in
      let (r, same, after) =
        decided-Recorded meta decide s rows o (decide s o).1 (decide s o).0 replays first refl in
      (r, λ t q. there-read_locked _ t (same ∙ there) (after t q))

  record_on-Leaves :
      (meta : EventMeta) (decide : Decide PushOutcome) (x : Result String ExecutionState)
      (rows : Rows) (o : PushOutcome)
      → read_locked sha256_hex read_source id rows ≡ x
      → Leaves meta decide rows o
          (record_on sha256_hex read_source id meta decide x rows o).0.0
          (record_on sha256_hex read_source id meta decide x rows o).0.1
          (record_on sha256_hex read_source id meta decide x rows o).1
  unfolding record_on postgres_repository
  record_on-Leaves meta decide (err e) rows o h = (Records.failed e rows o refl refl, λ t q. cc)
  record_on-Leaves meta decide (ok s) rows o h =
      record_unless-Leaves meta decide (is_retry rows.events meta) s rows o h refl

  record_async-Leaves :
      (meta : EventMeta) (decide : Decide PushOutcome) (rows : Rows) (o : PushOutcome)
      → Leaves meta decide rows o
          (record_async sha256_hex read_source id meta decide rows o).0.0
          (record_async sha256_hex read_source id meta decide rows o).0.1
          (record_async sha256_hex read_source id meta decide rows o).1
  unfolding record_async
  record_async-Leaves meta decide rows o =
      record_on-Leaves meta decide (read_locked sha256_hex read_source id rows) rows o refl

  record_async-again :
      (meta : EventMeta) (decide decide' : Decide PushOutcome) (rows rows' : Rows)
      (o o' p : PushOutcome) (s : ExecutionState)
      → record_async sha256_hex read_source id meta decide rows o ≡ ((ok s, rows'), o')
      → is_retry rows'.events meta ≡ true
      → record_async sha256_hex read_source id meta decide' rows' p ≡ ((ok s, rows'), p)
  unfolding record_async record_on record_unless
  record_async-again meta decide decide' rows rows' o o' p s e retry =
      let reads : read_locked sha256_hex read_source id rows' ≡ ok s =
        (subst (λ x. Leaves meta decide rows o x.0.0 x.0.1 x.1) e
            (record_async-Leaves meta decide rows o)).1
          s refl in
      ap (λ x. record_on sha256_hex read_source id meta decide' x rows' p) reads
      ∙ ap (λ b. record_unless sha256_hex read_source id meta decide' b s rows' p) retry

any-place :
    (c : Conflict) (rows : List Conflict) (p : Conflict → Bool)
    → any (place c rows) p ≡ any rows p || p c
unfolding place
any-place c [] p = ground arith
any-place c (x ∷ rows) p = elim (Bool-cases (is_before c x)) [
  | inl first ↦ rw first (comm (p c) (p x || any rows p))
  | inr later ↦ rw later (ap (◌||◌ (p x)) (any-place c rows p) ∙ assoc (p x) (any rows p) (p c))
]
  where
    comm : (a b : Bool) → a || b ≡ b || a
    comm a b = ground arith

    assoc : (a b c : Bool) → a || (b || c) ≡ (a || b) || c
    assoc a b c = ground arith

count-place :
    (c : Conflict) (rows : List Conflict) (p : Conflict → Bool)
    → count (place c rows) p ≡ count (c ∷ rows) p
unfolding place
count-place c [] p = refl
count-place c (x ∷ rows) p = elim (Bool-cases (is_before c x)) [
  | inl first ↦ rw first refl
  | inr later ↦ rw later (ground (arith, count-place c rows p))
]

module _ (c : Conflict) (event_id : ℕ) (named : c.entry.meta.event_id ≡ some event_id) where
  insert_conflict-any :
      (rows : Rows) (known : Bool)
      → any rows.conflicts (is_of event_id) ≡ known
      → (other : ℕ)
      → any (insert_conflict known c rows).conflicts (is_of other)
        ≡ any rows.conflicts (is_of other) || is_of other c
  unfolding insert_conflict is_of
  insert_conflict-any rows true h other = absorbs _ _ λ own.
      subst (λ i. any rows.conflicts (is_of i) ≡ true) (is_of-other c event_id other named own) h
  insert_conflict-any rows false h other =
      any-place (record c { resolved = none }) rows.conflicts (is_of other)

  added_any :
      (rows : Rows) (other : ℕ)
      → any (add_conflict c rows).1.conflicts (is_of other)
        ≡ any rows.conflicts (is_of other) || is_of other c
  unfolding add_conflict add_named
  added_any rows other =
      ap (λ x. any (add_named x c rows).1.conflicts (is_of other)) named
      ∙ insert_conflict-any rows (any rows.conflicts (is_of event_id)) refl other

  added_known :
      (rows : Rows)
      → any rows.conflicts (is_of event_id) ≡ true
      → (add_conflict c rows).1.conflicts ≡ rows.conflicts
  unfolding add_conflict add_named insert_conflict
  added_known rows known =
      ap (λ x. (add_named x c rows).1.conflicts) named
      ∙ ap (λ b. (insert_conflict b c rows).conflicts) known

  added_once :
      (rows : Rows)
      → any rows.conflicts (is_of event_id) ≡ false
      → (p : Conflict → Bool)
      → count (add_conflict c rows).1.conflicts p
        ≡ count (record c { resolved = none } ∷ rows.conflicts) p
  unfolding add_conflict add_named insert_conflict
  added_once rows fresh p =
      ap (λ x. count (add_named x c rows).1.conflicts p) named
      ∙ ap (λ b. count (insert_conflict b c rows).conflicts p) fresh
      ∙ count-place (record c { resolved = none }) rows.conflicts p

add_named-same :
    (x : Option ℕ) (c : Conflict) (rows : Rows)
    → ((add_named x c rows).1.events ≡ rows.events)
      × ((e : String) → (add_named x c rows).0 ≡ err e → (add_named x c rows).1 ≡ rows)
unfolding add_named
add_named-same none c rows = (refl, λ e h. refl)
add_named-same (some event_id) c rows = (same (any rows.conflicts (is_of event_id)), λ e h. cc)
  where
    same : (known : Bool) → (insert_conflict known c rows).events ≡ rows.events
    same true = unfold insert_conflict in refl
    same false = unfold insert_conflict in refl

-- The database is a repository, as the trait promises: a retry changes nothing, a decision's events come
-- behind the others, an error leaves the records and the conflicts, and a conflict is kept once for
-- its event.
pub postgres_repository-IsRepository :
    (sha256_hex : List ℕ → String) (read_source : String → Result String (List ℕ)) (id : String)
    → IsRepository
        (postgres_repository sha256_hex read_source id)
        (λ rows. rows.events)
        (λ rows. Unit {0})
unfolding postgres_repository add_conflict
postgres_repository-IsRepository sha256_hex read_source id = record {
  recorded_valid = λ meta decide rows o v. tt;
  recorded =
      λ meta decide rows o v. (record_async-Leaves sha256_hex read_source id meta decide rows o).0;
  again = λ meta decide decide' rows rows' o o' p state v done retry.
      record_async-again sha256_hex read_source id meta decide decide' rows rows' o o' p state done
        retry;
  added_valid = λ c rows v. tt;
  added_records = λ c rows v. (add_named-same c.entry.meta.event_id c rows).0;
  added = λ c rows event_id v named done other. added_any c event_id named rows other;
  added_known = λ c rows event_id v named known. added_known c event_id named rows known;
  added_once = λ c rows event_id v named fresh done p. added_once c event_id named rows fresh p;
  not_added = λ c rows e h. (add_named-same c.entry.meta.event_id c rows).1 e h;
}
