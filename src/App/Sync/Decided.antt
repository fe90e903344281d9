-- ===== src/App/Sync/Decided.antt =====
-- crates/procnote-app/src/sync.rs: lemmas on `decide_pushed`.
use procnote.Prelude.{
  String, true, false, ◌≡◌, refl, ap, ◌∙◌, inl, inr, some, List, [], ◌∷◌, Result, ok, err, All,
  Bool-cases, Option-cases, is_some, nat_eq, nat_eq_sound, nat_eq_refl, continue,
}
use procnote.Event.{ExecutionId, EventRecord}
use procnote.Execution.State.{ExecutionError, ExecutionState}
use procnote.Execution.Describe.{describe}
use procnote.Execution.Apply.{apply}
use procnote.App.Repository.{StagedFile, message, messages, apply_events, apply_decision}
use procnote.App.Sync.{
  Pushed, record_event, conflict, referenced_files, event_execution_id, is_started, collect_files,
  check_pushed, try_pushed, decide_pushed,
}
use procnote.App.Sync.Files.{
  IsStored, Collected, collect_files-Collected, IsProvided, collect_files-ok,
}

-- What a decision about a pushed event says of the event and the execution.
abbrev pub IsDecided : ExecutionId → ExecutionState → EventRecord → Result String Pushed → Type 0
IsDecided id s r (ok (record_event d)) =
    (event_execution_id r.event ≡ some id)
    × (d.events ≡ r.event ∷ [])
    × (apply_decision d s ≡ (ok tt, (apply r.event s).1))
    × All (IsStored s d.files) (referenced_files r.event)
IsDecided id s r (ok (conflict reason files)) =
    (event_execution_id r.event ≡ some id)
    × ((e : ExecutionError) × ((apply r.event s).0 ≡ err e) × (reason ≡ describe e))
    × All (IsStored s files) (referenced_files r.event)
IsDecided id s r (err e) = Unit

applied :
    (r : Result ExecutionError (Unit {0})) (t : ExecutionState)
    → r ≡ ok tt
    → continue (message r) (λ _ t. (ok tt, t)) t ≡ (ok tt, t)
unfolding message
applied (ok _) t h = refl
applied (err e) t h = cc

try_pushed-IsDecided :
    (id : ExecutionId) (s : ExecutionState) (r : EventRecord) (files : List StagedFile)
    → event_execution_id r.event ≡ some id
    → All (IsStored s files) (referenced_files r.event)
    → IsDecided id s r (ok (try_pushed s r.event files))
unfolding try_pushed apply_decision apply_events messages
try_pushed-IsDecided id s r files own stored = split (apply r.event s).0 refl
  where
    split :
        (x : Result ExecutionError (Unit {0}))
        → (apply r.event s).0 ≡ x
        → IsDecided id s r (
            ok (elim x [
              | ok _ ↦ record_event (record { events = r.event ∷ []; files = files })
              | err e ↦ conflict (describe e) files
            ]))
    split (ok tt) h = (own, refl, applied (apply r.event s).0 (apply r.event s).1 h, stored)
    split (err e) h = (own, (e, h, refl), stored)

check_pushed-own :
    (show_id : ExecutionId → String) (id : ExecutionId) (r : EventRecord) (done : Unit {0})
    → check_pushed show_id id r ≡ ok done
    → event_execution_id r.event ≡ some id
unfolding check_pushed
check_pushed-own show_id id r done h = elim (Bool-cases (is_some r.meta.event_id)) [
  | inr missing ↦ cc (rw missing at h)
  | inl there ↦ elim (Option-cases (event_execution_id r.event)) [
    | inl meta ↦ cc (rw (there, meta) at h)
    | inr (own, e) ↦ elim (Bool-cases (nat_eq own id)) [
      | inl same ↦ e ∙ ap some (nat_eq_sound own id same)
      | inr other ↦ cc (rw (there, e, other) at h)
    ]
  ]
]

-- What the server does with a pushed event: it is recorded only if it belongs to the execution and
-- applies to it now, as the one event of an accepted decision; it is kept as a conflict only if it
-- belongs to the execution and does not apply, with the engine's message as the reason; and in both
-- cases each file that it refers to is stored with it or is in the execution.
pub decide_pushed-IsDecided :
    (show_id : ExecutionId → String) (id : ExecutionId) (s : ExecutionState) (r : EventRecord)
    (uploaded : List StagedFile)
    → IsDecided id s r (decide_pushed show_id id s r uploaded)
unfolding decide_pushed
decide_pushed-IsDecided show_id id s r uploaded =
    decided (check_pushed show_id id r) refl (collect_files s uploaded (referenced_files r.event))
      (collect_files-Collected s uploaded (referenced_files r.event))
  where
    decided :
        (c : Result String (Unit {0}))
        → check_pushed show_id id r ≡ c
        → (x : Result String (List StagedFile)) → Collected s (referenced_files r.event) x
        → IsDecided id s r (elim c [
          | err e ↦ err e
          | ok _ ↦ elim x [ err e ↦ err e | ok files ↦ ok (try_pushed s r.event files) ]
        ])
    decided (err e) h x stored = tt
    decided (ok done) h (err e) stored = tt
    decided (ok done) h (ok files) (stored, asked) =
        try_pushed-IsDecided id s r files (check_pushed-own show_id id r done h) stored

check_pushed-ok :
    (show_id : ExecutionId → String) (id : ExecutionId) (r : EventRecord)
    → is_some r.meta.event_id ≡ true
    → event_execution_id r.event ≡ some id
    → is_started r.event ≡ false
    → check_pushed show_id id r ≡ ok tt
unfolding check_pushed
check_pushed-ok show_id id r named own other = simp (named, own, other, nat_eq_refl id)

-- Nothing that happened is dropped: an event with an ID, of this execution, that is not its start, and
-- whose files are provided, is recorded or kept as a conflict, whatever the execution has become.
pub decide_pushed-kept :
    (show_id : ExecutionId → String) (id : ExecutionId) (s : ExecutionState) (r : EventRecord)
    (uploaded : List StagedFile)
    → is_some r.meta.event_id ≡ true
    → event_execution_id r.event ≡ some id
    → is_started r.event ≡ false
    → All (IsProvided s uploaded) (referenced_files r.event)
    → (p : Pushed) × (decide_pushed show_id id s r uploaded ≡ ok p)
unfolding decide_pushed
decide_pushed-kept show_id id s r uploaded named own other provided =
    let (files, collected) = collect_files-ok s uploaded (referenced_files r.event) provided in
    (
      try_pushed s r.event files,
      rw (check_pushed-ok show_id id r named own other, collected, decide_pushed) refl,
    )
