-- ===== src/App/Received/Batch.antt =====
-- crates/procnote-app/src/repository.rs: lemmas on `decide_receive` as a whole.
use procnote.Prelude.{
  All-map, ℕ, suc, ◌+◌, String, Bool, true, false, ◌||◌, ◌≡◌, ◌≢◌, refl, ap, sym, subst, ◌∙◌, List,
  [], ◌∷◌, arith, Result, ok, err, continue, All, length,
}
use procnote.Event.{Timestamp, Event}
use procnote.Execution.State.{ExecutionError, ExecutionState}
use procnote.Execution.Describe.{describe}
use procnote.Execution.Apply.{apply}
use procnote.Execution.Actions.{receive_attachment_event, perform}
use procnote.Execution.AttachmentEvents.{has_attachment_path}
use procnote.App.Repository.{
  StagedFile, Decision, message, messages, apply_events, apply_decision, has_content, is_known,
  add_received, receive_loop, decide_receive,
}
use procnote.App.Received.{IsReceived, Step, receive_step}
use procnote.App.Received.Known.{is_known-grows, has_content-received, has_path-received}

-- Two files of different content and path.
abbrev pub Differs : StagedFile → StagedFile → Type 0
Differs f g = (g.file.sha256 ≢ f.file.sha256) × (g.file.path ≢ f.file.path)

abbrev pub AllDiffer : List StagedFile → Type 0
AllDiffer [] = Unit
AllDiffer (f ∷ files) = All (Differs f) files × AllDiffer files

-- What a decision about the files does to the state.
pub record Receipt (s : ExecutionState) (files : List StagedFile) (d : Decision) : Type 0 where
  pub after : ExecutionState
  pub accepted : apply_decision d s ≡ (ok tt, after)
  pub known : All (λ f. is_known after f ≡ true) files
  pub grows : (f : StagedFile) → is_known s f ≡ true → is_known after f ≡ true
  pub fresh : All (λ f. is_known s f ≡ false) d.files
  pub different : AllDiffer d.files
  pub one_event_each : length d.events ≡ length d.files

not_known : {a b : Bool} → (a ≡ true → b ≡ true) → b ≡ false → a ≡ false
not_known {a} {b} f h = ground (arith, f)

module _ {s s' : ExecutionState} (f : StagedFile) (r : IsReceived f.file s s') where
  differs : (g : StagedFile) → is_known s' g ≡ false → Differs f g
  unfolding is_known
  differs g fresh = (
    λ same.
        both_false _ _ (subst (λ x. has_content s' x ≡ true) (sym same) (has_content-received r))
          fresh,
    λ same.
        second_false _ _
          (subst (λ x. has_attachment_path x s' ≡ true) (sym same) (has_path-received r)) fresh,
  )
    where
      both_false : (a b : Bool) → a ≡ true → a || b ≡ false → ⊥
      both_false a b h k = ground arith

      second_false : (a b : Bool) → b ≡ true → a || b ≡ false → ⊥
      second_false a b h k = ground arith

  apply-Received :
      (event : Event) (d : Decision)
      → apply event s ≡ (ok tt, s')
      → apply_decision (add_received event f d) s ≡ apply_decision d s'
  unfolding apply_decision apply_events messages message add_received
  apply-Received event d h = ap (λ x. continue (message x.0) (λ _. apply_events d.events) x.1) h

  Receipt-add :
      {files : List StagedFile} {d : Decision} (event : Event)
      → is_known s f ≡ false
      → apply event s ≡ (ok tt, s')
      → Receipt s' files d
      → Receipt s (f ∷ files) (add_received event f d)
  unfolding add_received is_known
  Receipt-add {files} {d} event new applied h = record {
    after = h.after;
    accepted = apply-Received event d applied ∙ h.accepted;
    known = (h.grows f (first _ _ (has_content-received r)), h.known);
    grows = λ g known. h.grows g (is_known-grows r g known);
    fresh = (new, All-map d.files (λ g. not_known (is_known-grows r g)) h.fresh);
    different = (All-map d.files differs h.fresh, h.different);
    one_event_each = ap suc h.one_event_each;
  }
    where
      first : (a b : Bool) → a ≡ true → a || b ≡ true
      first a b h = ground arith

Receipt-known :
    {s : ExecutionState} {files : List StagedFile} {d : Decision} (f : StagedFile)
    → is_known s f ≡ true
    → Receipt s files d
    → Receipt s (f ∷ files) d
Receipt-known f known h = record {
  after = h.after;
  accepted = h.accepted;
  known = (h.grows f known, h.known);
  grows = h.grows;
  fresh = h.fresh;
  different = h.different;
  one_event_each = h.one_event_each;
}

Receipt-nil : (s : ExecutionState) → Receipt s [] (record { events = []; files = [] })
unfolding apply_decision apply_events
Receipt-nil s = record {
  after = s;
  accepted = refl;
  known = tt;
  grows = λ f h. h;
  fresh = tt;
  different = tt;
  one_event_each = refl;
}

abbrev pub Receives : ExecutionState → List StagedFile → Result String Decision → Type 0
Receives s files (ok d) = Receipt s files d
Receives s files (err e) = Unit

receive_loop-Receives :
    (clock : ℕ → Timestamp) (i : ℕ) (s : ExecutionState) (files : List StagedFile)
    → Receives s files (receive_loop clock i s files)
unfolding receive_loop
receive_loop-Receives clock i s [] = Receipt-nil s
receive_loop-Receives clock i s (f ∷ files) =
    split (is_known s f) refl (receive_loop-Receives clock i s files)
      (λ s'. receive_loop-Receives clock (i + 1) s' files)
  where
    more :
        (event : Event) (s' : ExecutionState) (rest : Result String Decision)
        → is_known s f ≡ false
        → Step (clock i) f.file s (ok event) s'
        → Receives s' files rest
        → Receives s (f ∷ files) (elim rest [ err e ↦ err e | ok d ↦ ok (add_received event f d) ])
    more event s' (err e) new step h = tt
    more event s' (ok d) new (applied, r) h = Receipt-add f r event new applied h

    performed :
        (r : Result ExecutionError Event) (s' : ExecutionState)
        → is_known s f ≡ false
        → Step (clock i) f.file s r s'
        → Receives s' files (receive_loop clock (i + 1) s' files)
        → Receives s (f ∷ files) (elim r [
          | err e ↦ err (describe e)
          | ok event ↦ elim (receive_loop clock (i + 1) s' files) [
            | err e ↦ err e
            | ok d ↦ ok (add_received event f d)
          ]
        ])
    performed (err e) s' new step rest = tt
    performed (ok event) s' new step rest =
        more event s' (receive_loop clock (i + 1) s' files) new step rest

    known_file :
        (rest : Result String Decision)
        → is_known s f ≡ true
        → Receives s files rest
        → Receives s (f ∷ files) rest
    known_file (ok d) known h = Receipt-known f known h
    known_file (err e) known h = tt

    split :
        (b : Bool)
        → is_known s f ≡ b
        → Receives s files (receive_loop clock i s files)
        → ((s' : ExecutionState) → Receives s' files (receive_loop clock (i + 1) s' files))
        → Receives s (f ∷ files) (elim b [
          | true ↦ receive_loop clock i s files
          | false ↦
              let (r, s') = perform (receive_attachment_event (clock i) f.file) s in
              elim r [
                | err e ↦ err (describe e)
                | ok event ↦ elim (receive_loop clock (i + 1) s' files) [
                  | err e ↦ err e
                  | ok d ↦ ok (add_received event f d)
                ]
              ]
        ])
    split true known same again = known_file (receive_loop clock i s files) known same
    split false new same again = performed _ _ new (receive_step (clock i) f.file s) (again _)

-- A received batch is accepted as a whole: if `decide_receive` gives a decision, `apply_decision`
-- takes all of its events on the same state without an error; it has one event for each file that it
-- stores; behind it the execution has each file of the batch, by content or by stored path; no file
-- that it stores was there before, and no two of them have the same content or the same stored path.
pub decide_receive-Receives :
    (clock : ℕ → Timestamp) (s : ExecutionState) (files : List StagedFile)
    → Receives s files (decide_receive clock s files)
unfolding decide_receive
decide_receive-Receives clock s files = receive_loop-Receives clock 0 s files

nothing_new :
    (clock : ℕ → Timestamp) (i : ℕ) (s : ExecutionState) (files : List StagedFile)
    → All (λ f. is_known s f ≡ true) files
    → receive_loop clock i s files ≡ ok (record { events = []; files = [] })
unfolding receive_loop
nothing_new clock i s [] h = refl
nothing_new clock i s (f ∷ files) h = rw (h.0, receive_loop) (nothing_new clock i s files h.1)

-- A retry receives nothing: if `decide_receive` gives a decision on a batch, then the same batch on
-- the state behind that decision, at whatever times, gives the decision with no event and no file.
pub decide_receive-retry :
    (clock again : ℕ → Timestamp) (s : ExecutionState) (files : List StagedFile) (d : Decision)
    → decide_receive clock s files ≡ ok d
    → decide_receive again (apply_decision d s).1 files ≡ ok (record { events = []; files = [] })
decide_receive-retry clock again s files d h =
    let receipt = subst (Receives s files) h (decide_receive-Receives clock s files) in
    subst
      (λ (t : Result String (Unit {0}) × ExecutionState).
        decide_receive again t.1 files ≡ ok (record { events = []; files = [] }))
      (sym receipt.accepted)
      (unfold decide_receive in nothing_new again 0 receipt.after files receipt.known)
