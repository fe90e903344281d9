-- ===== src/EventLog/Tail.antt =====
-- crates/procnote-core/src/event/log.rs: lemmas on how `read_log_records` treats the end of a log.
use procnote.Prelude.{
  ℕ, ◌+◌, String, true, false, ◌≡◌, refl, ap, ◌∙◌, Option, none, List, [], ◌∷◌, ◌++◌, Result, ok,
  err, arith, length, trim, is_blank,
}
use procnote.Event.{Timestamp, Event, EventMeta, EventRecord, log_meta}
use procnote.EventLog.{
  EventLogError, supported_version, find_first, check_version, push_record, read_lines,
  read_after_first, read_log_records,
}

module _ (Io Json : Type 0) (parse_event : String → Result Json Event)
    (parse_meta : String → Result Json EventMeta)
    (parse_type : String → Option (Option String)) where
  -- The lines hold these records, and blank lines between them.
  pub data Reads : List (Result Io String) → List EventRecord → Type 0 where
    done : Reads [] []
    blank :
        (line : String) {lines : List (Result Io String)} {records : List EventRecord}
        → is_blank line ≡ true
        → Reads lines records
        → Reads (ok line ∷ lines) records
    entry :
        (line : String) (r : EventRecord) {lines : List (Result Io String)}
        {records : List EventRecord}
        → is_blank line ≡ false
        → parse_event (trim line) ≡ ok r.event
        → parse_meta (trim line) ≡ ok r.meta
        → Reads lines records
        → Reads (ok line ∷ lines) (r ∷ records)

  -- A line with text that is no JSON.
  pub record IsCut (line : String) : Type 0 where
    pub source : Json
    pub text : is_blank line ≡ false
    pub no_event : parse_event (trim line) ≡ err source
    pub no_value : parse_type (trim line) ≡ none

  read_lines-cut :
      (i : ℕ) (lines : List (Result Io String)) (records : List EventRecord) (cut : String)
      → Reads lines records
      → IsCut cut
      → read_lines Io Json parse_event parse_meta parse_type i none (lines ++ ok cut ∷ [])
        ≡ ok records
  unfolding read_lines push_record
  read_lines-cut i _ _ cut Reads.done c = rw (c.text, c.no_event, c.no_value, read_lines) refl
  read_lines-cut i _ _ cut (Reads.blank line {lines} {records} empty rest) c =
      rw (empty, read_lines) (read_lines-cut (i + 1) lines records cut rest c)
  read_lines-cut i _ _ cut (Reads.entry line r {lines} {records} text event meta rest) c =
      rw (text, event, meta, read_lines)
        (ap (push_record Io Json parse_event parse_meta parse_type r)
          (read_lines-cut (i + 1) lines records cut rest c))

  read_lines-corrupt :
      (i : ℕ) (lines more : List (Result Io String)) (records : List EventRecord)
      (cut next : String)
      → Reads lines records
      → IsCut cut
      → is_blank next ≡ false
      → read_lines Io Json parse_event parse_meta parse_type i none
          (lines ++ ok cut ∷ ok next ∷ more)
        ≡ err (EventLogError.corrupt_line (i + length lines + 1))
  unfolding read_lines push_record
  read_lines-corrupt i _ more _ cut next Reads.done c text =
      rw (c.text, c.no_event, c.no_value, text, read_lines)
        (ap (λ n. err (EventLogError.corrupt_line n)) (omega arith))
  read_lines-corrupt i _ more _ cut next (Reads.blank line {lines} {records} empty rest) c text =
      rw (empty, read_lines)
        (read_lines-corrupt (i + 1) lines more records cut next rest c text
          ∙ ap (λ n. err (EventLogError.corrupt_line n)) (omega arith))
  read_lines-corrupt i _ more _ cut next
        (Reads.entry line r {lines} {records} text' event meta rest) c text =
      rw (text', event, meta, read_lines)
        (ap (push_record Io Json parse_event parse_meta parse_type r)
            (read_lines-corrupt (i + 1) lines more records cut next rest c text)
          ∙ ap (λ n. err (EventLogError.corrupt_line n)) (omega arith))

  -- A line that is the metadata of a log of the supported version.
  pub record IsHead (line : String) : Type 0 where
    pub at : Timestamp
    pub tool : String
    pub text : is_blank line ≡ false
    pub meta : parse_event (trim line) ≡ ok (log_meta at supported_version tool)

  abbrev pub head_record : {line : String} → IsHead line → EventRecord
  head_record h = record {
    event = log_meta h.at supported_version h.tool;
    meta = record { event_id = none; recorded_by = none; device = none };
  }

  after_head :
      (head : String) (lines : List (Result Io String)) (h : IsHead head)
      → read_log_records Io Json parse_event parse_meta parse_type (ok head ∷ lines)
        ≡ push_record Io Json parse_event parse_meta parse_type
            (head_record h)
            (read_lines Io Json parse_event parse_meta parse_type 1 none lines)
  unfolding read_log_records find_first read_after_first check_version
  after_head head lines h = rw (h.text, h.meta, read_log_records, read_after_first) refl

  -- A log whose last line was cut short by a crash is read as if the line were not there: behind the
  -- metadata line and lines that parse to records, a last line with text that is no JSON is passed
  -- over, and the records come back in order.
  pub read_log_records-cut :
      (head : String) (lines : List (Result Io String)) (records : List EventRecord) (cut : String)
      (h : IsHead head)
      → Reads lines records
      → IsCut cut
      → read_log_records Io Json parse_event parse_meta parse_type (ok head ∷ lines ++ ok cut ∷ [])
        ≡ ok (head_record h ∷ records)
  unfolding push_record
  read_log_records-cut head lines records cut h reads c =
      after_head head (lines ++ ok cut ∷ []) h
      ∙ ap (push_record Io Json parse_event parse_meta parse_type (head_record h))
          (read_lines-cut 1 lines records cut reads c)

  -- The same line with more text behind it is an error that names it: behind the metadata line and
  -- lines that parse to records, a line with text that is no JSON, followed at once by another line
  -- with text, makes the log unreadable, with the number of the first of the two.
  pub read_log_records-corrupt :
      (head : String) (lines more : List (Result Io String)) (records : List EventRecord)
      (cut next : String)
      → IsHead head
      → Reads lines records
      → IsCut cut
      → is_blank next ≡ false
      → read_log_records Io Json parse_event parse_meta parse_type
          (ok head ∷ lines ++ ok cut ∷ ok next ∷ more)
        ≡ err (EventLogError.corrupt_line (length lines + 2))
  unfolding push_record
  read_log_records-corrupt head lines more records cut next h reads c text =
      after_head head (lines ++ ok cut ∷ ok next ∷ more) h
      ∙ ap (push_record Io Json parse_event parse_meta parse_type (head_record h))
          (read_lines-corrupt 1 lines more records cut next reads c text)
      ∙ ap (λ n. err (EventLogError.corrupt_line n)) (omega arith)
