-- ===== src/Server/Handlers/Accepted.antt =====
-- crates/procnote-server/src/lib.rs: lemmas on pushed batches.
use procnote.Prelude.{
  ℕ, ◌+◌, String, true, ◌≡◌, refl, ap, sym, subst, subst₂, ◌∙◌, ◌⊎◌, inl, inr, Option, none, some,
  List, [], ◌∷◌, arith, Result, ok, err, Exec,
}
use procnote.Event.{Timestamp, ExecutionId, EventRecord}
use procnote.App.Repository.{StagedFile}
use procnote.App.Sync.Conflicts.{PushOutcome, rejected}
use procnote.App.Sync.Push.{Repository, has_conflict, push_event, push_named}
use procnote.App.Sync.Push.Laws.{IsRepository}
use procnote.App.Sync.Push.Again.{IsAccepted, Pushes, push_event-again}
use procnote.App.Sync.Push.Grows.{Grows, Grows-refl, Grows-trans, push_event-Grows}
use procnote.Store.Directory.{is_retry}
use procnote.Server.Handlers.{add_outcome, after_first, push_each}

module _ {S : Type 0} (repo : Repository S) (records : S → List EventRecord) (Valid : S → Type 0)
    (laws : IsRepository repo records Valid) (show_id : ExecutionId → String) (id : ExecutionId)
    (clock : ℕ → Timestamp) (uploaded : List StagedFile) where
  -- The event is in the log or among the conflicts.
  abbrev pub IsHeld : S → EventRecord → Type 0
  IsHeld s r =
      (event_id : ℕ) × (r.meta.event_id ≡ some event_id)
      × ((is_retry (records s) r.meta ≡ true) ⊎ (has_conflict repo event_id s ≡ true))

  -- Each event has an outcome, and is held unless it was rejected.
  abbrev pub AllHeld : S → List EventRecord → List PushOutcome → Type 0
  AllHeld s [] [] = Unit
  AllHeld s (r ∷ rs) (outcome ∷ outcomes) =
      (IsAccepted outcome → IsHeld s r) × AllHeld s rs outcomes
  AllHeld s [] (outcome ∷ outcomes) = ⊥
  AllHeld s (r ∷ rs) [] = ⊥

  abbrev Growing : S → S → Type 0
  Growing = Grows repo records Valid laws show_id id

  push_named-IsHeld :
      (r : EventRecord) (now : Timestamp) (s s' : S) (outcome : PushOutcome) (name : Option ℕ)
      → Valid s
      → r.meta.event_id ≡ name
      → push_event repo show_id id r uploaded now s ≡ (ok outcome, s')
      → IsAccepted outcome
      → IsHeld s' r
  unfolding push_event push_named
  push_named-IsHeld r now s s' outcome none v named h accepted =
      let q : ◌≡◌ {A = Result String PushOutcome × S}
          (ok (rejected "pushed events need an event_id"), s) (ok outcome, s') =
        ap (λ x. push_named repo show_id id x r uploaded now s) (sym named) ∙ h in
      let refused : rejected "pushed events need an event_id" ≡ outcome = ground arith in
      absurd (subst IsAccepted (sym refused) accepted)
  push_named-IsHeld r now s s' outcome (some i) v named h accepted = (
    i,
    named,
    (subst (λ x. Pushes repo records Valid laws show_id id r i named x.0 x.1) h
        (push_event-again repo records Valid laws show_id id r i named uploaded now s v)
        accepted).0,
  )

  IsHeld-grows : (s s' : S) (r : EventRecord) → Growing s s' → IsHeld s r → IsHeld s' r
  IsHeld-grows s s' r g (i, named, inl h) = (i, named, inl (g.held r.meta h))
  IsHeld-grows s s' r g (i, named, inr h) = (i, named, inr (g.conflicts i h))

  abbrev pushing : ℕ → List EventRecord → Exec String S (List PushOutcome)
  pushing = push_each repo show_id id clock uploaded

  first-Grows :
      (s s1 : S) (x : Result String PushOutcome) (rest : Result String (List PushOutcome) × S)
      → Growing s s1
      → (Valid s1 → Growing s1 rest.1)
      → Growing s (after_first repo show_id id clock uploaded x s1 rest).1
  unfolding after_first
  first-Grows s s1 (err e) rest first later = first
  first-Grows s s1 (ok outcome) rest first later =
      Grows-trans repo records Valid laws show_id id first (later first.valid)

  push_each-Grows : (i : ℕ) (rs : List EventRecord) (s : S) → Valid s → Growing s (pushing i rs s).1
  unfolding push_each
  push_each-Grows i [] s v = Grows-refl repo records Valid laws show_id id s v
  push_each-Grows i (r ∷ rs) s v =
      first-Grows s (push_event repo show_id id r uploaded (clock i) s).1 _ _
        (push_event-Grows repo records Valid laws show_id id r uploaded (clock i) s v)
        (push_each-Grows (i + 1) rs (push_event repo show_id id r uploaded (clock i) s).1)

  add_outcome-ok :
      (outcome : PushOutcome) (rest : Result String (List PushOutcome))
      (outcomes : List PushOutcome)
      → add_outcome outcome rest ≡ ok outcomes
      → (others : List PushOutcome) × (rest ≡ ok others) × (outcomes ≡ outcome ∷ others)
  unfolding add_outcome
  add_outcome-ok outcome (ok others) outcomes h = (others, refl, ground arith)
  add_outcome-ok outcome (err e) outcomes h = cc

  first-AllHeld :
      (r : EventRecord) (rs : List EventRecord) (s1 s' : S) (x : Result String PushOutcome)
      (rest : Result String (List PushOutcome) × S) (outcomes : List PushOutcome)
      → ((outcome : PushOutcome) → x ≡ ok outcome → IsAccepted outcome → IsHeld s1 r)
      → Growing s1 rest.1
      → ((others : List PushOutcome) → rest.0 ≡ ok others → AllHeld rest.1 rs others)
      → after_first repo show_id id clock uploaded x s1 rest ≡ (ok outcomes, s')
      → AllHeld s' (r ∷ rs) outcomes
  unfolding after_first
  first-AllHeld r rs s1 s' (err e) rest outcomes first grows later h = absurd (no h)
    where
      no : ◌≡◌ {A = Result String (List PushOutcome) × S} (err e, s1) (ok outcomes, s') → ⊥
      no h = cc
  first-AllHeld r rs s1 s' (ok outcome) (rest, s2) outcomes first grows later h =
      let (others, e, same) = add_outcome-ok outcome rest outcomes (ap (λ x. x.0) h) in
      subst₂ (λ t l. AllHeld t (r ∷ rs) l) (ap (λ x. x.1) h) (sym same)
        (λ accepted. IsHeld-grows s1 s2 r grows (first outcome refl accepted), later others e)

  -- A batch that is answered has an outcome for each event, in their order, and each event that was not
  -- rejected has an ID and is in the log or among the conflicts when the answer is sent.
  pub push_each-AllHeld :
      (i : ℕ) (rs : List EventRecord) (s s' : S) (outcomes : List PushOutcome)
      → Valid s
      → pushing i rs s ≡ (ok outcomes, s')
      → AllHeld s' rs outcomes
  unfolding push_each
  push_each-AllHeld i [] s s' outcomes v h =
      let e : ◌≡◌ {A = List PushOutcome} [] outcomes = ground arith in subst (AllHeld s' []) e tt
  push_each-AllHeld i (r ∷ rs) s s' outcomes v h =
      let pushed = push_event repo show_id id r uploaded (clock i) s in
      let v1 : Valid pushed.1 =
        (push_event-Grows repo records Valid laws show_id id r uploaded (clock i) s v).valid in
      first-AllHeld r rs pushed.1 s' pushed.0 (pushing (i + 1) rs pushed.1) outcomes
        (λ outcome e.
          push_named-IsHeld r (clock i) s pushed.1 outcome r.meta.event_id v refl
            (λ j. (e j, pushed.1)))
        (push_each-Grows (i + 1) rs pushed.1 v1)
        (λ others e.
          push_each-AllHeld (i + 1) rs pushed.1 (pushing (i + 1) rs pushed.1).1 others v1
            (λ j. (e j, (pushing (i + 1) rs pushed.1).1)))
        h
