-- ===== src/Server/Handlers.antt =====
-- crates/procnote-server/src/lib.rs: the handlers that a device syncs with, at one execution. The
-- uploads of a push are staged files, `clock` is the time at which each event is dealt with, and
-- `identity` the address of an authenticated caller.
pub mod Accepted
use procnote.Prelude.{
  ℕ, ◌+◌, String, Option, none, some, List, [], ◌∷◌, Result, ok, err, Exec, drop, length,
}
use procnote.Event.{Timestamp, ExecutionId, EventRecord}
use procnote.App.Repository.{StagedFile}
use procnote.App.Sync.Conflicts.{PushOutcome}
use procnote.App.Sync.Push.{Repository, push_event}
use procnote.Device.Engine.{Pulled}

unfoldable pub attribute_record : Option String → EventRecord → EventRecord
attribute_record none r = r
attribute_record (some email) r = record {
  event = r.event;
  meta = record r.meta { recorded_by = some email };
}

-- `pull_events`
unfoldable pub pulled_events : ℕ → List EventRecord → Pulled
pulled_events after records = record { records = drop after records; count = length records }

unfoldable pub add_outcome :
    PushOutcome → Result String (List PushOutcome) → Result String (List PushOutcome)
add_outcome outcome (ok outcomes) = ok (outcome ∷ outcomes)
add_outcome outcome (err e) = err e

module _ {S : Type 0} (repo : Repository S) (show_id : ExecutionId → String) (id : ExecutionId)
    (clock : ℕ → Timestamp) (uploaded : List StagedFile) where
  -- `collect` ends at the first error; what was pushed before it stays.
  unfoldable pub after_first :
      Result String PushOutcome
      → S
      → Result String (List PushOutcome) × S
      → Result String (List PushOutcome) × S
  unfolding add_outcome
  after_first (err e) s' rest = (err e, s')
  after_first (ok outcome) s' (rest, s'') = (add_outcome outcome rest, s'')

  unfoldable pub push_each : ℕ → List EventRecord → Exec String S (List PushOutcome)
  unfolding after_first
  push_each i [] s = (ok [], s)
  push_each i (r ∷ records) s =
      let (x, s') = push_event repo show_id id r uploaded (clock i) s in
      after_first x s' (push_each (i + 1) records s')

  unfoldable pub attributed : Option String → List EventRecord → List EventRecord
  unfolding attribute_record
  attributed identity [] = []
  attributed identity (r ∷ records) = attribute_record identity r ∷ attributed identity records

  -- `push_events`
  unfoldable pub push_events : Option String → List EventRecord → Exec String S (List PushOutcome)
  unfolding push_each attributed
  push_events identity records = push_each 0 (attributed identity records)
