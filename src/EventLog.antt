-- ===== src/EventLog.antt =====
-- crates/procnote-core/src/event/log.rs: reading an event log. The JSON parser is a parameter: what it
-- makes of a text as an event, as metadata, and as a value with a `type`. `Io` and `Json` are the
-- errors of the reader and of the parser.
pub mod Tail
pub mod Append
mod Examples
use procnote.Prelude.{
  ℕ, ◌+◌, String, ◌==◌, Bool, true, false, ◌||◌, Option, none, some, List, [], ◌∷◌, Result, ok, err,
  any, nat_eq, if◌then◌else◌, is_blank, trim,
}
use procnote.Event.{Event, EventMeta, EventRecord, log_meta}

abbrev pub supported_version : ℕ
supported_version = 2

pub data EventLogError (Io Json : Type 0) : Type 0 where
  io : Io → EventLogError Io Json
  json : Json → EventLogError Io Json
  missing_log_meta : EventLogError Io Json
  unsupported_version : (found supported : ℕ) → EventLogError Io Json
  unknown_event_type : (type_name : String) (line : ℕ) → EventLogError Io Json
  invalid_event_payload : (type_name : String) (line : ℕ) (source : Json) → EventLogError Io Json
  corrupt_line : (line : ℕ) → EventLogError Io Json
  first_event_must_be_log_meta : EventLogError Io Json

abbrev known_types : List String
known_types =
    "execution_started" ∷ "execution_completed" ∷ "execution_aborted" ∷ "execution_reopened"
    ∷ "step_added" ∷ "step_skipped" ∷ "step_unskipped" ∷ "checkbox_toggled" ∷ "input_recorded"
    ∷ "input_cleared" ∷ "note_added" ∷ "note_removed" ∷ "attachment_added" ∷ "attachments_added"
    ∷ "attachment_file_removed" ∷ "attachments_cleared" ∷ "attachment_removed"
    ∷ "attachment_received" ∷ "attachment_assigned" ∷ "attachment_unassigned" ∷ "execution_renamed"
    ∷ "log_meta" ∷ []

unfoldable pub is_known_event_type : String → Bool
is_known_event_type type_name = any known_types (λ t. t == type_name)

unfoldable pub name_or_none : Option String → String
name_or_none none = "<no type>"
name_or_none (some name) = name

module _ (Io Json : Type 0) (parse_event : String → Result Json Event)
    (parse_meta : String → Result Json EventMeta)
    (parse_type : String → Option (Option String)) where
  unfoldable pub event_type_name : String → String
  unfolding name_or_none
  event_type_name line = elim (parse_type line) [
    | none ↦ "<no type>"
    | some type_name ↦ name_or_none type_name
  ]

  -- The first line with text, its number and the lines behind it.
  unfoldable pub find_first :
      ℕ
      → List (Result Io String)
      → Result (EventLogError Io Json) (String × ℕ × List (Result Io String))
  find_first i [] = err EventLogError.missing_log_meta
  find_first i (err e ∷ lines) = err (EventLogError.io e)
  find_first i (ok line ∷ lines) =
      let rest = find_first (i + 1) lines in if is_blank line then rest else ok (line, i + 1, lines)

  unfoldable pub check_version : Event → Result (EventLogError Io Json) (Unit {0})
  check_version (log_meta _ version _) =
      if nat_eq version supported_version
      then ok tt
      else err (EventLogError.unsupported_version version supported_version)
  check_version _ = err EventLogError.missing_log_meta

  unfoldable pub push_record :
      EventRecord
      → Result (EventLogError Io Json) (List EventRecord)
      → Result (EventLogError Io Json) (List EventRecord)
  push_record r (ok records) = ok (r ∷ records)
  push_record r (err e) = err e

  -- A text that is no event: a value of an unknown type, or a known one with a wrong payload.
  unfoldable pub refuse_value :
      String → ℕ → Json → Result (EventLogError Io Json) (List EventRecord)
  refuse_value type_name line source =
      if is_known_event_type type_name
      then err (EventLogError.invalid_event_payload type_name line source)
      else err (EventLogError.unknown_event_type type_name line)

  -- The loop over the lines; `tail` is the number of a line that was no JSON.
  unfoldable pub read_lines :
      ℕ → Option ℕ → List (Result Io String) → Result (EventLogError Io Json) (List EventRecord)
  read_lines i tail [] = ok []
  read_lines i tail (err e ∷ lines) = err (EventLogError.io e)
  read_lines i tail (ok line ∷ lines) = elim (is_blank line) [
    | true ↦ read_lines (i + 1) tail lines
    | false ↦ elim tail [
      | some bad ↦ err (EventLogError.corrupt_line bad)
      | none ↦ elim (parse_event (trim line)) [
        | ok event ↦ elim (parse_meta (trim line)) [
          | ok meta ↦
              push_record (record { event = event; meta = meta }) (read_lines (i + 1) none lines)
          | err source ↦
              err (EventLogError.invalid_event_payload (event_type_name (trim line)) (i + 1) source)
        ]
        | err source ↦ elim (parse_type (trim line)) [
          | some type_name ↦ refuse_value (name_or_none type_name) (i + 1) source
          | none ↦ read_lines (i + 1) (some (i + 1)) lines
        ]
      ]
    ]
  ]

  abbrev no_meta : EventMeta
  no_meta = record { event_id = none; recorded_by = none; device = none }

  -- What follows the first line with text.
  unfoldable pub read_after_first :
      String → ℕ → List (Result Io String) → Result (EventLogError Io Json) (List EventRecord)
  read_after_first line i lines = elim (parse_event (trim line)) [
    | err _ ↦ err EventLogError.missing_log_meta
    | ok event ↦ elim (check_version event) [
      | err e ↦ err e
      | ok _ ↦ push_record (record { event = event; meta = no_meta }) (read_lines i none lines)
    ]
  ]

  unfoldable pub read_log_records :
      List (Result Io String) → Result (EventLogError Io Json) (List EventRecord)
  read_log_records lines =
      let first = find_first 0 lines in
      elim first [ err e ↦ err e | ok found ↦ read_after_first found.0 found.1 found.2 ]
