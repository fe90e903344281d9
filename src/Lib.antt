-- ===== src/Lib.antt =====
-- procnote: the execution of test procedures, as an append-only log of events.
--
-- An execution is a log of events. `ExecutionState::apply` checks one event against the state that the
-- log before it replays to, and changes the state; `from_events` folds it over a log. The actions of the
-- user interface build an event, check it on a copy of the state and apply it; the application crate
-- decides which events a request records and hands them to a store. All files, servers and clients hold
-- the same logs and replay them with the same engine.
--
-- Files, each with the code that it models:
--   Template            crates/procnote-core/src/template/types.rs, the parsed template
--   Event               crates/procnote-core/src/event/types.rs, the events
--   Execution           crates/procnote-core/src/execution/engine.rs:
--     State, Describe   the records and errors, and the messages of the errors
--     Steps             impl StepState: definitions of inputs, checkboxes, captured data
--     Checkboxes        execution_content_with_checkbox_ids
--     Attachments       validate_attachment_path, add_attachments_to_step and the other functions on
--                       the files of a step
--     Guards            require_active, require_finished, get_present_step_mut
--     Lifecycle, StepEvents, NoteEvents, AttachmentEvents
--                       the arms of the match in `apply`, one function each
--     Apply             apply, transition_event_at, from_events
--     Actions           the methods that build, validate and apply an event
--     Start             start, with the IDs that it gives to steps and checkboxes
--   EventLog            crates/procnote-core/src/event/log.rs: read_log_records over the lines of a file;
--                       Append is append_event, as to the text of the file
--   App                 crates/procnote-app/src: Action and Meta are action.rs (ExecutionAction,
--                       ActionMeta::into_event_meta), Repository is repository.rs
--                       (apply_decision, decide_action, decide_receive), Sync is sync.rs
--                       (decide_pushed), with Sync.Conflicts (what a push can come to) and
--                       Sync.Push (push_event and resolve_conflict over any repository)
--   Store               crates/procnote-app/src/persistence: Files is attachment_store.rs, Outbox
--                       outbox.rs, ConflictLog conflict_log.rs; execution_store.rs is Directory
--                       (record), Settle (link, outbox, settle), Conflicts, Attached
--                       (store_attachment) and Workspace (linked, find_execution_dir)
--   Server              crates/procnote-server/src: Postgres is postgres.rs on the rows of an
--                       execution, Handlers the handlers of lib.rs that a device syncs with
--   Device              crates/procnote-sync/src/engine.rs: Engine is the sync of one execution,
--                       Workspace that of all; Monad is the chaining of its calls
--   DropPoint           src-tauri/src/drop_point: session.rs is Session (the state and its changes),
--                       Validate with Checks (texts, paths, submissions) and Links (IDs, keys,
--                       addresses), Merge (merge_transition) and Sessions (the stored files);
--                       Urls is the check of relay addresses in client.rs
--   Prelude             numbers, texts, lists, maps and results that all of them share
--
-- Proofs stand below the module that they are about. Execution.Sound says what holds of every step,
-- Execution.Relation and Execution.Transition give the abstract machine: the moves of a step and of an
-- execution, with the conditions under which they may happen. Execution.Transition.Reach relates
-- the arms of `apply` to these moves, and Execution.Replay an invariant of the moves to replayed logs;
-- the invariants stand in Execution.Invariants and Execution.Sound. Examples and Fixture hold the tests.
--
-- How the parts interact: a device keeps a copy of the server's log in a directory (Store) and what it
-- records in pending lines behind it. A sync (Device.Engine) pushes these lines, pulls the log's new lines
-- and settles both in the directory. The server's handlers push each event through App.Sync.Push into a
-- repository, which App.Sync.Push.Laws describes as an interface: the directories and the database are two
-- of them (Server.Repositories), and what is said of pushing holds over each that keeps the laws.
--
-- How code became definitions:
--   - A method on `&mut self` that may fail is a function from a state to a result and a state. The state
--     comes back beside an error too, with what was written before the error.
--   - A `HashMap` is a list of entries with distinct keys; its order stands for the order of iteration,
--     which Rust leaves open.
--   - A reference into a map (`get_step_mut`) is a read of the step and a write of the changed step.
--   - Times and UUIDs are numbers, which the code only stores, copies and compares. What `Utc::now()`,
--     `Uuid::new_v4()` and the name generator give is an argument.
--   - `none` from transition_event_at stands for the panic of `unreachable!`.
--   - The JSON parser is a parameter of the log reader: what it makes of a text as an event, as metadata
--     and as a value with a type. So are the errors of the parser and of the file system.
--   - The print of a UUID in a message is a parameter, a function `show_id`.
--   - `applied_events` is a `u64` and wraps at 2^64, as a release build does. Usize indices stay numbers:
--     they are below the length of a list in memory.
--   - The search for a free checkbox ID runs on fuel, one more than there are used IDs: the candidates all
--     differ, so one of them is free. All other loops run over a list.
--   - The lock on an execution's log, or the transaction of the database, makes an operation one step.
--     Crashes are modelled where the code speaks of them: a directory between the writes of a
--     settlement (Store.Settle.Settled.Interrupted), and a text file whose last line has no line end.
--   - The files of a directory that hold one record per line are the records that they read as; the text
--     of pending.jsonl and of the event log is modelled by itself, in Store.Outbox and EventLog.
--   - The server is any functions from a state to an answer (DeviceClient). Others may record in the
--     directory while a call waits, as long as they only add pending lines (Device.Engine.Waiting).
--   - What a database statement does is written out on the rows: `ON CONFLICT DO NOTHING` keeps the
--     row that is there, and what a failed transaction wrote is gone.
--   - Paths of the drop point are lists of components. The libraries for UUIDs, base64, keys and URLs are
--     parameters, one record of functions. A state file reads as the state that was written to it.
--
-- Not modelled: the Markdown parser, snapshots and summaries, the creation and import of executions, the
-- HTTP routes, access rules and links of the server, the encryption and the manifests of the drop point,
-- the browser bindings and the desktop shell. The last ones are calls into the parts above; the parser,
-- the summaries, the creation of executions and the manifests could be modelled in the same way.
pub mod Prelude
pub mod Template
pub mod Event
pub mod EventLog
pub mod Execution
pub mod App
pub mod Store
pub mod Server
pub mod Device
pub mod DropPoint
