-- ===== src/App/Meta.antt =====
-- crates/procnote-app/src/action.rs: the metadata that an action is recorded with.
pub mod Trimmed
use procnote.Prelude.{ℕ, String, Option, none, some, trim, is_empty_text, if◌then◌else◌}
use procnote.Event.{EventMeta}

pub record ActionMeta : Type 0 where
  pub event_id : Option ℕ
  pub recorded_by : Option String
  pub device : Option String

-- The closure `non_blank`.
unfoldable pub non_blank : Option String → Option String
non_blank none = none
non_blank (some v) = let t = trim v in if is_empty_text t then none else some t

unfoldable pub into_event_meta : ActionMeta → EventMeta
unfolding non_blank
into_event_meta m = record {
  event_id = m.event_id;
  recorded_by = non_blank m.recorded_by;
  device = non_blank m.device;
}
