-- ===== src/Store/Examples.antt =====
-- The theorems on the small execution in a directory.
use procnote.Prelude.{
  ℕ, ◌+◌, ◌<◌, arith, take, String, ◌==◌, ◌≡◌, refl, List, [], ◌∷◌, Result, ok, err, append, trim,
  trim_start, trim_end, is_blank, length, to_string, if◌then◌else◌, filter,
}
use procnote.Event.{EventRecord}
use procnote.App.Repository.{Decide}
use procnote.App.Sync.Conflicts.{PushOutcome}
use procnote.EventLog.Append.{LogFile}
use procnote.Store.Outbox.{has_text, parse_pending, read_pending, append_pending}
use procnote.Store.Outbox.Lines.{Texts, IsCutLine}
use procnote.Store.Outbox.Pending.{
  HoldsPending, IsShown, append_pending-read, append_pending-corrupt,
}
use procnote.Store.Directory.{ExecutionDir, read_state}
use procnote.Store.Directory.Recorded.{Recorded}
use procnote.Store.Settle.{settle_steps, written, settle_writes, check_pulled}
use procnote.Store.Settle.Settled.{Interrupted, resumed, settle_writes-resumed}
use procnote.Store.Fixture.{completed, device_dir, sync, settlement, finished, settlement_replays}

abbrev from_str : String → Result String EventRecord
from_str line = if line == "{}" then ok completed else err "EOF"

abbrev as_event : EventRecord → Result String EventRecord
as_event r = ok r

abbrev show : EventRecord → String
show r = "{}"

shown : IsShown EventRecord from_str as_event show completed
unfolding is_blank trim trim_start trim_end parse_pending
shown = record { value = completed; reads = refl; parses = refl; text = refl }

abbrev held : LogFile
held = record { lines = "{}" ∷ " " ∷ []; rest = "" }

holds : HoldsPending EventRecord from_str as_event show held (completed ∷ [])
unfolding is_blank trim trim_start trim_end
holds = record { texts = Texts.entry "{}" completed shown Texts.done; closed = refl }

append_pending-read_example :
    (read_pending EventRecord from_str as_event (append_pending show (completed ∷ []) held)
      ≡ ok (completed ∷ completed ∷ []))
    × HoldsPending EventRecord from_str as_event show
        (append_pending show (completed ∷ []) held)
        (completed ∷ completed ∷ [])
append_pending-read_example =
    append_pending-read EventRecord from_str as_event show held (completed ∷ []) (completed ∷ [])
      holds (shown, tt)

cut : IsCutLine EventRecord from_str (parse_pending EventRecord from_str as_event) "{" "EOF"
unfolding is_blank trim trim_start trim_end
cut = record { text = refl; refused = refl }

joined : IsCutLine EventRecord from_str (parse_pending EventRecord from_str as_event) "{{}" "EOF"
unfolding is_blank trim trim_start trim_end
joined = record { text = refl; refused = refl }

append_pending-corrupt_example :
    (read_pending EventRecord from_str as_event (record { lines = []; rest = "{" }) ≡ ok [])
    × (read_pending EventRecord from_str as_event
          (append_pending show (completed ∷ []) (record { lines = []; rest = "{" }))
        ≡ err (
            append "corrupt line "
              (append (to_string (length (filter has_text []) + 1)) (append ": " "EOF"))))
append_pending-corrupt_example =
    append_pending-corrupt EventRecord from_str as_event show [] "{" "EOF" "EOF" [] completed
      Texts.done cut joined

abbrev hash : List ℕ → String
hash content = "h"

abbrev source : String → Result String (List ℕ)
source path = ok []

abbrev shown_path : String → String
shown_path path = path

-- A request that records the completion.
abbrev complete : Decide PushOutcome
complete s o = (ok (record { events = completed.event ∷ []; files = [] }), o)

-- The log is written, and the crash comes before the refusals and the marks.
abbrev found : ExecutionDir
found = written (take 1 (settle_steps sync settlement)) device_dir

within : 1 < length (settle_steps sync settlement)
unfolding settle_steps
within = omega arith

settle_writes-resumed_example :
    (found.pending ≡ device_dir.pending)
    × (found.sync ≡ device_dir.sync)
    × (check_pulled (resumed settlement device_dir found) found ≡ ok tt)
    × ((settle_writes sync (resumed settlement device_dir found) found).log
        ≡ (settle_writes sync settlement device_dir).log)
    × ((settle_writes sync (resumed settlement device_dir found) found).pending
        ≡ (settle_writes sync settlement device_dir).pending)
    × ((settle_writes sync (resumed settlement device_dir found) found).sync
        ≡ (settle_writes sync settlement device_dir).sync)
    × (read_state (settle_writes sync (resumed settlement device_dir found) found)
        ≡ read_state (settle_writes sync settlement device_dir))
settle_writes-resumed_example =
    settle_writes-resumed settlement device_dir found sync finished settlement_replays
      (Interrupted.cut 1 within)
