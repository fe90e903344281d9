-- ===== src/Server/Examples.antt =====
-- The theorems on the small execution, in a directory on the server.
use procnote.Prelude.{ℕ, String, ◌≡◌, refl, List, [], ◌∷◌, Result, ok, false}
use procnote.Event.{ExecutionId, EventRecord}
use procnote.Execution.State.{new}
use procnote.Execution.Lifecycle.{apply_started, apply_finished}
use procnote.Execution.Apply.{apply_event, count_event, apply, replay_event, replay, from_events}
use procnote.App.Repository.{message, messages, apply_events, apply_decision}
use procnote.App.Sync.{
  decide_pushed, check_pushed, collect_files, try_pushed, event_execution_id, is_started,
  referenced_files,
}
use procnote.App.Sync.Conflicts.{recorded, duplicate}
use procnote.App.Sync.Push.{
  push_event, push_named, push_unless, push_recorded, keep_conflict, decide_push,
}
use procnote.App.Sync.Push.Again.{Pushes, push_event-again}
use procnote.App.Sync.Push.Exclusive.{in_both, has_record, push_event-in_both}
use procnote.Store.Files.{store_all}
use procnote.Store.Directory.{current_records, record_in, state_of_records, append_events, is_retry}
use procnote.Store.Directory.Appended.{IsWellFormed}
use procnote.Store.Conflicts.{file_repository, conflicts}
use procnote.Store.Conflicts.Lawful.{file_repository-IsRepository}
use procnote.Store.Fixture.{completed, server_dir}
use procnote.Server.Handlers.{push_each}
use procnote.Server.Handlers.Accepted.{AllHeld, push_each-AllHeld}

abbrev hash : List ℕ → String
hash content = "h"

abbrev source : String → Result String (List ℕ)
source path = ok []

abbrev shown : String → String
shown path = path

abbrev show_id : ExecutionId → String
show_id id = "7"

push_event-again_example :
    Pushes
      (file_repository hash source shown)
      current_records
      IsWellFormed
      (file_repository-IsRepository hash source shown)
      show_id
      7
      completed
      9
      refl
      (push_event (file_repository hash source shown) show_id 7 completed [] 3 server_dir).0
      (push_event (file_repository hash source shown) show_id 7 completed [] 3 server_dir).1
push_event-again_example =
    push_event-again (file_repository hash source shown) current_records IsWellFormed
      (file_repository-IsRepository hash source shown) show_id 7 completed 9 refl [] 3 server_dir
      refl

no_ids :
    (event_id : ℕ)
    → in_both
        (file_repository hash source shown)
        current_records
        IsWellFormed
        (file_repository-IsRepository hash source shown)
        show_id
        7
        event_id
        server_dir
      ≡ false
unfolding has_record current_records
no_ids event_id = refl

push_event-in_both_example :
    in_both
      (file_repository hash source shown)
      current_records
      IsWellFormed
      (file_repository-IsRepository hash source shown)
      show_id
      7
      9
      (push_event (file_repository hash source shown) show_id 7 completed [] 3 server_dir).1
    ≡ false
push_event-in_both_example =
    push_event-in_both (file_repository hash source shown) current_records IsWellFormed
      (file_repository-IsRepository hash source shown) show_id 7 completed [] 3 server_dir refl
      no_ids 9

abbrev batch : List EventRecord
batch = completed ∷ completed ∷ []

pushed :
    (push_each (file_repository hash source shown) show_id 7 (λ i. i) [] 0 batch server_dir).0
    ≡ ok (recorded ∷ duplicate ∷ [])
unfolding push_each push_event push_named push_unless push_recorded keep_conflict decide_push
    decide_pushed check_pushed collect_files try_pushed event_execution_id is_started
    referenced_files new apply_started apply_finished apply_event count_event apply replay_event
    replay from_events message messages apply_events apply_decision store_all record_in
    state_of_records append_events is_retry file_repository conflicts
pushed = refl

push_each-AllHeld_example :
    AllHeld
      (file_repository hash source shown)
      current_records
      IsWellFormed
      (file_repository-IsRepository hash source shown)
      show_id
      7
      (λ i. i)
      []
      (push_each (file_repository hash source shown) show_id 7 (λ i. i) [] 0 batch server_dir).1
      batch
      (recorded ∷ duplicate ∷ [])
push_each-AllHeld_example =
    push_each-AllHeld (file_repository hash source shown) current_records IsWellFormed
      (file_repository-IsRepository hash source shown) show_id 7 (λ i. i) [] 0 batch server_dir
      (push_each (file_repository hash source shown) show_id 7 (λ i. i) [] 0 batch server_dir).1
      (recorded ∷ duplicate ∷ []) refl answered
  where
    answered :
        push_each (file_repository hash source shown) show_id 7 (λ i. i) [] 0 batch server_dir ≡ (
          ok (recorded ∷ duplicate ∷ []),
          (push_each
              (file_repository hash source shown)
              show_id
              7
              (λ i. i)
              []
              0
              batch
              server_dir).1,
        )
    answered = λ j. (
      pushed j,
      (push_each (file_repository hash source shown) show_id 7 (λ i. i) [] 0 batch server_dir).1,
    )
