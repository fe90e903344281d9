-- ===== src/EventLog/Append.antt =====
-- crates/procnote-core/src/event/log.rs: `append_event`, as to the text of the file.
use procnote.Prelude.{
  ◌+◌, String, false, ◌≡◌, refl, ap, sym, ◌∙◌, Option, List, [], ◌∷◌, ◌++◌, map, Result, ok, err,
  append, length, trim, is_blank, trim_start, trim_end, is_empty_text, if◌then◌else◌,
}
use text.Mathlib.TextLemmas.{nil-append}
use mathlib.Core.List.{map-append, append_assoc, append-nil}
use procnote.Event.{Event, EventMeta, EventRecord}
use procnote.EventLog.{EventLogError, read_log_records}
use procnote.EventLog.Tail.{Reads, IsCut, IsHead, read_log_records-cut, read_log_records-corrupt}

-- The text of a log: its lines, and what stands behind the last line end.
pub record LogFile : Type 0 where
  pub lines : List String
  pub rest : String

-- Lines that are read without an error.
abbrev pub as_lines : {Io : Type 0} → List String → List (Result Io String)
as_lines = map (λ line. ok line)

-- `BufRead::lines`: text behind the last line end is a line too.
unfoldable pub file_lines : (Io : Type 0) → LogFile → List (Result Io String)
file_lines Io file =
    as_lines file.lines ++ (if is_empty_text file.rest then [] else ok file.rest ∷ [])

-- `writeln!(file, "{json}")` on a file opened to append.
unfoldable pub write_line : String → LogFile → LogFile
write_line json file = record { lines = file.lines ++ append file.rest json ∷ []; rest = "" }

append_empty : (s : String) → append "" s ≡ s
append_empty s = nil-append s

pub text_left : (line : String) → is_blank line ≡ false → is_empty_text line ≡ false
unfolding is_blank trim trim_start trim_end
text_left String.[] h = h
text_left (String.◌∷◌ c s) h = refl

module _ (Io Json : Type 0) (parse_event : String → Result Json Event)
    (parse_meta : String → Result Json EventMeta)
    (parse_type : String → Option (Option String)) where
  abbrev pub read_file : LogFile → Result (EventLogError Io Json) (List EventRecord)
  read_file file = read_log_records Io Json parse_event parse_meta parse_type (file_lines Io file)

  lines_cut :
      (head cut : String) (lines : List String)
      → is_blank cut ≡ false
      → file_lines Io (record { lines = head ∷ lines; rest = cut })
        ≡ ok head ∷ as_lines lines ++ ok cut ∷ []
  unfolding file_lines
  lines_cut head cut lines text = rw (text_left cut text) refl

  lines_written :
      (head json cut : String) (lines : List String)
      → file_lines Io (write_line json (record { lines = head ∷ lines; rest = cut }))
        ≡ ok head ∷ as_lines lines ++ ok (append cut json) ∷ []
  unfolding file_lines write_line
  lines_written head json cut lines = simp (map-append, append-nil)

  lines_written_twice :
      (head json json' cut : String) (lines : List String)
      → file_lines Io
          (write_line json' (write_line json (record { lines = head ∷ lines; rest = cut })))
        ≡ ok head ∷ as_lines lines ++ ok (append cut json) ∷ ok json' ∷ []
  unfolding file_lines write_line
  lines_written_twice head json json' cut lines =
      simp (map-append, append-nil, append_assoc, append_empty)

  -- What is appended behind a line that was cut short is lost: on a log whose lines are its metadata
  -- and records, and that ends in text that is no JSON, also with the new line's text behind it, the
  -- log reads as before after the first append, and is unreadable after the second.
  pub write_line-lost :
      (head : String) (lines : List String) (records : List EventRecord) (cut json json' : String)
      → IsHead Io Json parse_event parse_meta parse_type head
      → Reads Io Json parse_event parse_meta parse_type (as_lines lines) records
      → IsCut Io Json parse_event parse_meta parse_type cut
      → IsCut Io Json parse_event parse_meta parse_type (append cut json)
      → is_blank json' ≡ false
      → (read_file (write_line json (record { lines = head ∷ lines; rest = cut }))
          ≡ read_file (record { lines = head ∷ lines; rest = cut }))
        × (read_file
              (write_line json' (write_line json (record { lines = head ∷ lines; rest = cut })))
            ≡ err (EventLogError.corrupt_line (length (as_lines {Io = Io} lines) + 2)))
  write_line-lost head lines records cut json json' h reads c joined text =
      let read = read_log_records Io Json parse_event parse_meta parse_type in
      (
        ap read (lines_written head json cut lines)
            ∙ read_log_records-cut Io Json parse_event parse_meta parse_type head _ records
                (append cut json) h reads joined
            ∙ sym (
                ap read (lines_cut head cut lines c.text)
                ∙ read_log_records-cut Io Json parse_event parse_meta parse_type head _ records cut
                    h reads c),
        ap read (lines_written_twice head json json' cut lines)
            ∙ read_log_records-corrupt Io Json parse_event parse_meta parse_type head _ [] records
                (append cut json) json' h reads joined text,
      )
