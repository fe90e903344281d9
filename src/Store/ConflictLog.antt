-- ===== src/Store/ConflictLog.antt =====
-- crates/procnote-app/src/persistence/conflict_log.rs: the lines of `conflicts.jsonl`, as `parse` reads
-- them, and the conflicts that they describe.
use procnote.Prelude.{
  ℕ, String, Bool, true, ◌≡◌, refl, ap, sym, ◌∙◌, nat_eq_sound, none, some, List, [], ◌∷◌, ◌++◌,
  if◌then◌else◌,
}
use procnote.Event.{Timestamp, EventRecord}
use procnote.App.Sync.Conflicts.{Conflict, Resolution}
use procnote.Store.Outbox.{id_eq}

pub data Line : Type 0 where
  conflict : (entry : EventRecord) (reason : String) (received_at : Timestamp) → Line
  resolved : (event_id : ℕ) (resolution : Resolution) → Line

-- `conflict.record.meta.event_id == Some(event_id)`
unfoldable pub is_of : ℕ → Conflict → Bool
unfolding id_eq
is_of event_id c = id_eq c.entry.meta.event_id (some event_id)

-- `iter_mut().find(…)`, and the assignment to what it finds.
unfoldable pub resolve : ℕ → Resolution → List Conflict → List Conflict
unfolding is_of
resolve event_id resolution [] = []
resolve event_id resolution (c ∷ conflicts) =
    let rest = resolve event_id resolution conflicts in
    if is_of event_id c then record c { resolved = some resolution } ∷ conflicts else c ∷ rest

-- One round of the loop of `parse`.
unfoldable pub parse_line : List Conflict → Line → List Conflict
unfolding resolve
parse_line conflicts (Line.conflict entry reason received_at) =
    conflicts
    ++ record { entry = entry; reason = reason; received_at = received_at; resolved = none } ∷ []
parse_line conflicts (Line.resolved event_id resolution) = resolve event_id resolution conflicts

unfoldable pub parse : List Conflict → List Line → List Conflict
unfolding parse_line
parse conflicts [] = conflicts
parse conflicts (line ∷ lines) = parse (parse_line conflicts line) lines

unfoldable pub append_conflict : Conflict → List Line → List Line
append_conflict c lines = lines ++ Line.conflict c.entry c.reason c.received_at ∷ []

unfoldable pub append_resolution : ℕ → Resolution → List Line → List Line
append_resolution event_id resolution lines = lines ++ Line.resolved event_id resolution ∷ []

parse-append :
    (conflicts : List Conflict) (lines more : List Line)
    → parse conflicts (lines ++ more) ≡ parse (parse conflicts lines) more
unfolding parse
parse-append conflicts [] more = refl
parse-append conflicts (line ∷ lines) more = parse-append (parse_line conflicts line) lines more

-- A conflict that is kept is read behind those of before, unresolved.
pub parse-append_conflict :
    (c : Conflict) (lines : List Line)
    → parse [] (append_conflict c lines) ≡ parse [] lines ++ record c { resolved = none } ∷ []
unfolding append_conflict parse parse_line
parse-append_conflict c lines =
    parse-append [] lines (Line.conflict c.entry c.reason c.received_at ∷ [])

-- A resolution that is kept is read as that of the first conflict about its event.
pub parse-append_resolution :
    (event_id : ℕ) (resolution : Resolution) (lines : List Line)
    → parse [] (append_resolution event_id resolution lines)
      ≡ resolve event_id resolution (parse [] lines)
unfolding append_resolution parse parse_line
parse-append_resolution event_id resolution lines =
    parse-append [] lines (Line.resolved event_id resolution ∷ [])

pub is_of-other :
    (c : Conflict) (event_id other : ℕ)
    → c.entry.meta.event_id ≡ some event_id
    → is_of other c ≡ true
    → event_id ≡ other
unfolding is_of id_eq
is_of-other c event_id other named h =
    nat_eq_sound event_id other (ap (λ x. id_eq x (some other)) (sym named) ∙ h)
