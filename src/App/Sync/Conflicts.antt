-- ===== src/App/Sync/Conflicts.antt =====
-- crates/procnote-app/src/sync.rs: what is kept of a pushed event that no longer applied, and what the
-- server answers to a pushed event.
use procnote.Prelude.{String, Option}
use procnote.Event.{Timestamp, EventRecord}

pub record Resolution : Type 0 where
  pub at : Timestamp
  pub by : Option String

-- `entry` is the field `record`, which is a keyword here.
pub record Conflict : Type 0 where
  pub entry : EventRecord
  pub reason : String
  pub received_at : Timestamp
  pub resolved : Option Resolution

pub data PushOutcome : Type 0 where
  recorded : PushOutcome
  duplicate : PushOutcome
  conflicting : (reason : String) → PushOutcome
  rejected : (reason : String) → PushOutcome
