-- ===== src/Store/Outbox.antt =====
-- crates/procnote-app/src/persistence/outbox.rs: the files of an execution that is linked to a server,
-- as texts. The JSON library is a parameter: `from_str` reads a line as a value, `get_field` and
-- `as_str` look into a value, `event_from_value` reads a value as an event with its metadata.
pub mod Lines
pub mod Pending
use procnote.Prelude.{
  ℕ, ◌+◌, String, ◌==◌, Bool, true, false, not, ◌&&◌, Option, none, some, List, [], ◌∷◌, ◌++◌, map,
  Result, ok, err, any, filter, length, append, to_string, nat_eq, is_some, is_blank, is_empty_text,
  if◌then◌else◌,
}
use procnote.Event.{EventRecord}
use procnote.EventLog.Append.{LogFile, write_line}

pub record SyncState : Type 0 where
  pub registered : Bool
  pub handled : ℕ

-- `entry` is the field `record`, which is a keyword here.
pub record Rejected : Type 0 where
  pub entry : EventRecord
  pub reason : String

-- `text.lines()`
abbrev pub text_lines : LogFile → List String
text_lines file = file.lines ++ (if is_empty_text file.rest then [] else file.rest ∷ [])

abbrev pub has_text : String → Bool
has_text line = not (is_blank line)

unfoldable pub push_item : {T : Type 0} → T → Result String (List T) → Result String (List T)
push_item item (ok items) = ok (item ∷ items)
push_item item (err e) = err e

-- `known.record.meta.event_id == id`
unfoldable pub id_eq : Option ℕ → Option ℕ → Bool
id_eq none none = true
id_eq (some a) (some b) = nat_eq a b
id_eq _ _ = false

-- One round of the loop of `read_rejected`: an event that is known by its ID is left out.
unfoldable pub push_unique : List Rejected → Rejected → List Rejected
unfolding id_eq
push_unique unique r =
    if is_some r.entry.meta.event_id
      && any unique (λ known. id_eq known.entry.meta.event_id r.entry.meta.event_id)
    then unique
    else unique ++ r ∷ []

unfoldable pub unique_rejected : List Rejected → List Rejected → List Rejected
unique_rejected unique [] = unique
unique_rejected unique (r ∷ rest) = unique_rejected (push_unique unique r) rest

module _ (Value : Type 0) (from_str : String → Result String Value) where
  -- The loop: `n` lines with text, of which the next is number `i`; `closed` tells that the text ends
  -- with a line end.
  unfoldable pub parse_from :
      {T : Type 0} → (Value → Result String T) → ℕ → Bool → ℕ → List String → Result String (List T)
  unfolding push_item
  parse_from parse n closed i [] = ok []
  parse_from parse n closed i (line ∷ lines) = elim (from_str line) [
    | ok value ↦ elim (parse value) [
      | ok item ↦ push_item item (parse_from parse n closed (i + 1) lines)
      | err e ↦ err e
    ]
    | err e ↦ elim (nat_eq (i + 1) n && not closed) [
      | true ↦ parse_from parse n closed (i + 1) lines
      | false ↦ err (append "corrupt line " (append (to_string (i + 1)) (append ": " e)))
    ]
  ]

  unfoldable pub parse_lines :
      {T : Type 0} → (Value → Result String T) → LogFile → Result String (List T)
  parse_lines parse file =
      let lines = filter has_text (text_lines file) in
      parse_from parse (length lines) (is_empty_text file.rest) 0 lines

  module _ (event_from_value : Value → Result String EventRecord) where
    unfoldable pub parse_pending : Value → Result String EventRecord
    parse_pending value = elim (event_from_value value) [
      | ok r ↦ ok r
      | err e ↦ err (append "invalid pending event: " e)
    ]

    unfoldable pub read_pending : LogFile → Result String (List EventRecord)
    unfolding parse_lines parse_from parse_pending
    read_pending file = parse_lines parse_pending file

    module _ (get_field : String → Value → Option Value) (as_str : Value → Option String) where
      unfoldable pub reason_of : Option Value → String
      reason_of none = ""
      reason_of (some value) = elim (as_str value) [ none ↦ "" | some text ↦ text ]

      unfoldable pub parse_rejected : Value → Result String Rejected
      unfolding reason_of
      parse_rejected value = elim (get_field "record" value) [
        | none ↦ err "rejected line without record"
        | some r ↦ elim (event_from_value r) [
          | err _ ↦ err "invalid record"
          | ok entry ↦ ok (record { entry = entry; reason = reason_of (get_field "reason" value) })
        ]
      ]

      unfoldable pub read_rejected : LogFile → Result String (List Rejected)
      unfolding parse_lines parse_from parse_rejected unique_rejected push_unique
      read_rejected file = elim (parse_lines parse_rejected file) [
        | ok all ↦ ok (unique_rejected [] all)
        | err e ↦ err e
      ]

-- `append_lines`: the texts of the values, each with its line end, behind what the file holds.
unfoldable pub append_lines : List String → LogFile → LogFile
append_lines [] file = file
append_lines (line ∷ lines) file = append_lines lines (write_line line file)

-- `show` prints a value as a line of JSON.
unfoldable pub append_pending : (EventRecord → String) → List EventRecord → LogFile → LogFile
unfolding append_lines
append_pending show records file = append_lines (map show records) file

unfoldable pub append_rejected : (Rejected → String) → List Rejected → LogFile → LogFile
unfolding append_lines
append_rejected show rejected file = append_lines (map show rejected) file
