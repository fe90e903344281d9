-- ===== src/Store/Outbox/Pending.antt =====
-- crates/procnote-app/src/persistence/outbox.rs: lemmas on what is read back of the appended files.
use procnote.Prelude.{
  ◌+◌, String, ◌≡◌, List, [], ◌∷◌, ◌++◌, map, Result, ok, err, All, filter, length, append,
  to_string,
}
use procnote.Event.{EventRecord}
use procnote.EventLog.Append.{LogFile}
use procnote.Store.Outbox.{has_text, parse_pending, read_pending, append_pending}
use procnote.Store.Outbox.Lines.{
  IsText, Texts, Holds, IsCutLine, parse_lines-Holds, parse_lines-cut, append_lines-Holds,
  append_lines-corrupt,
}

module _ (Value : Type 0) (from_str : String → Result String Value)
    (event_from_value : Value → Result String EventRecord) (show : EventRecord → String) where
  abbrev parse : Value → Result String EventRecord
  parse = parse_pending Value from_str event_from_value

  -- The pending events that the text of a file holds.
  abbrev pub HoldsPending : LogFile → List EventRecord → Type 0
  HoldsPending = Holds Value from_str parse

  -- `show` prints the event as a line that reads as it.
  abbrev pub IsShown : EventRecord → Type 0
  IsShown r = IsText Value from_str parse (show r) r

  shown :
      (records : List EventRecord)
      → All IsShown records
      → Texts Value from_str parse (map show records) records
  shown [] h = Texts.done
  shown (r ∷ records) h = Texts.entry (show r) r h.0 (shown records h.1)

  -- Pending events that are appended to a file whose last line is whole are read back in order, behind
  -- those that it held, and the file can be appended to again.
  pub append_pending-read :
      (file : LogFile) (held records : List EventRecord)
      → HoldsPending file held
      → All IsShown records
      → (read_pending Value from_str event_from_value (append_pending show records file)
          ≡ ok (held ++ records))
        × HoldsPending (append_pending show records file) (held ++ records)
  unfolding read_pending append_pending
  append_pending-read file held records h t =
      let later = append_lines-Holds Value from_str parse h (shown records t) in
      (parse_lines-Holds Value from_str parse later, later)

  -- A pending line that a crash cut short is passed over when the file is read; but the next event that
  -- is appended is written behind it on the same line, and the file, which the joined line makes
  -- corrupt, cannot be read any more.
  pub append_pending-corrupt :
      (lines : List String) (cut e e' : String) (held : List EventRecord) (r : EventRecord)
      → Texts Value from_str parse (filter has_text lines) held
      → IsCutLine Value from_str parse cut e
      → IsCutLine Value from_str parse (append cut (show r)) e'
      → (read_pending Value from_str event_from_value (record { lines = lines; rest = cut })
          ≡ ok held)
        × (read_pending Value from_str event_from_value
              (append_pending show (r ∷ []) (record { lines = lines; rest = cut }))
            ≡ err (
                append "corrupt line "
                  (append (to_string (length (filter has_text lines) + 1)) (append ": " e'))))
  unfolding read_pending append_pending
  append_pending-corrupt lines cut e e' held r t c joined = (
    parse_lines-cut Value from_str parse lines cut e t c,
    append_lines-corrupt Value from_str parse lines cut (show r) e' t joined,
  )
