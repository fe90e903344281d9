-- ===== src/EventLog/Examples.antt =====
-- A log of two lines, behind which a third was cut short.
use procnote.Prelude.{
  String, ◌==◌, ◌≡◌, refl, Option, none, List, [], ◌∷◌, ◌++◌, Result, ok, err, append, false, trim,
  trim_start, trim_end, is_blank, if◌then◌else◌,
}
use procnote.Event.{Event, EventMeta, EventRecord, log_meta, execution_renamed}
use procnote.EventLog.{EventLogError, read_log_records}
use procnote.EventLog.Tail.{
  Reads, IsCut, IsHead, head_record, read_log_records-cut, read_log_records-corrupt,
}
use procnote.EventLog.Append.{write_line, read_file, write_line-lost}

abbrev no_meta : EventMeta
no_meta = record { event_id = none; recorded_by = none; device = none }

-- A parser that knows two texts.
abbrev parse_event : String → Result (Unit {0}) Event
parse_event text =
    if text == "{\"m\"}"
    then ok (log_meta 0 2 "0.1")
    else if text == "{\"a\"}"
    then ok (execution_renamed 1 7 "a")
    else err tt

abbrev parse_meta : String → Result (Unit {0}) EventMeta
parse_meta text = ok no_meta

abbrev parse_type : String → Option (Option String)
parse_type text = none

abbrev records : List EventRecord
records = record { event = execution_renamed 1 7 "a"; meta = no_meta } ∷ []

head : IsHead (Unit {0}) (Unit {0}) parse_event parse_meta parse_type "{\"m\"}"
unfolding is_blank trim trim_start trim_end
head = record { at = 0; tool = "0.1"; text = refl; meta = refl }

reads :
    Reads
      (Unit {0})
      (Unit {0})
      parse_event
      parse_meta
      parse_type
      (ok "{\"a\"} " ∷ ok " " ∷ [])
      records
unfolding is_blank trim trim_start trim_end
reads =
    Reads.entry "{\"a\"} " (record { event = execution_renamed 1 7 "a"; meta = no_meta }) refl refl
      refl (Reads.blank " " refl Reads.done)

cut : IsCut (Unit {0}) (Unit {0}) parse_event parse_meta parse_type "{\"a"
unfolding is_blank trim trim_start trim_end
cut = record { source = tt; text = refl; no_event = refl; no_value = refl }

joined : IsCut (Unit {0}) (Unit {0}) parse_event parse_meta parse_type (append "{\"a" "{\"a\"}")
unfolding is_blank trim trim_start trim_end
joined = record { source = tt; text = refl; no_event = refl; no_value = refl }

text : is_blank "{\"a\"}" ≡ false
unfolding is_blank trim trim_start trim_end
text = refl

read_log_records-cut_example :
    read_log_records
      (Unit {0})
      (Unit {0})
      parse_event
      parse_meta
      parse_type
      (ok "{\"m\"}" ∷ (ok "{\"a\"} " ∷ ok " " ∷ []) ++ ok "{\"a" ∷ [])
    ≡ ok (
        head_record (Unit {0}) (Unit {0}) parse_event parse_meta parse_type {line = "{\"m\"}"} head
        ∷ records)
read_log_records-cut_example =
    read_log_records-cut (Unit {0}) (Unit {0}) parse_event parse_meta parse_type "{\"m\"}"
      (ok "{\"a\"} " ∷ ok " " ∷ []) records "{\"a" head reads cut

read_log_records-corrupt_example :
    read_log_records
      (Unit {0})
      (Unit {0})
      parse_event
      parse_meta
      parse_type
      (ok "{\"m\"}" ∷ (ok "{\"a\"} " ∷ ok " " ∷ []) ++ ok "{\"a" ∷ ok "{\"a\"}" ∷ [])
    ≡ err (EventLogError.corrupt_line 4)
read_log_records-corrupt_example =
    read_log_records-corrupt (Unit {0}) (Unit {0}) parse_event parse_meta parse_type "{\"m\"}"
      (ok "{\"a\"} " ∷ ok " " ∷ []) [] records "{\"a" "{\"a\"}" head reads cut text

write_line-lost_example :
    (read_file
        (Unit {0})
        (Unit {0})
        parse_event
        parse_meta
        parse_type
        (write_line "{\"a\"}" (record { lines = "{\"m\"}" ∷ "{\"a\"} " ∷ " " ∷ []; rest = "{\"a" }))
      ≡ read_file
          (Unit {0})
          (Unit {0})
          parse_event
          parse_meta
          parse_type
          (record { lines = "{\"m\"}" ∷ "{\"a\"} " ∷ " " ∷ []; rest = "{\"a" }))
    × (read_file (Unit {0}) (Unit {0}) parse_event parse_meta parse_type (
          write_line "{\"a\"}" (
            write_line "{\"a\"}"
              (record { lines = "{\"m\"}" ∷ "{\"a\"} " ∷ " " ∷ []; rest = "{\"a" })))
        ≡ err (EventLogError.corrupt_line 4))
write_line-lost_example =
    write_line-lost (Unit {0}) (Unit {0}) parse_event parse_meta parse_type "{\"m\"}"
      ("{\"a\"} " ∷ " " ∷ []) records "{\"a" "{\"a\"}" "{\"a\"}" head reads cut joined text
