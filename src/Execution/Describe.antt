-- ===== src/Execution/Describe.antt =====
-- crates/procnote-core/src/execution/engine.rs: the messages of `ExecutionError`.
use procnote.Prelude.{String, append}
use procnote.Execution.State.{ExecutionError}

-- The text that `Display` writes.
unfoldable pub describe : ExecutionError → String
describe ExecutionError.not_started = "execution has not been started"
describe ExecutionError.already_started = "execution has already been started"
describe ExecutionError.already_finished = "execution has already finished"
describe (ExecutionError.step_not_found id) = append "step not found: " id
describe ExecutionError.not_finished = "execution is not finished"
describe (ExecutionError.step_already_skipped id) = append "step already skipped: " id
describe (ExecutionError.step_not_skipped id) = append "step is not skipped: " id
describe (ExecutionError.step_has_captured_data id) = append "step has captured data: " id
describe (ExecutionError.duplicate_step_id id) = append "duplicate step id: " id
describe (ExecutionError.duplicate_note_id id) = append "duplicate note id: " id
describe (ExecutionError.checkbox_not_found id) = append "checkbox not found: " id
describe (ExecutionError.input_already_recorded id) = append "input already recorded: " id
describe (ExecutionError.input_not_recorded id) = append "input not recorded: " id
describe (ExecutionError.input_not_found id) = append "input not found: " id
describe (ExecutionError.input_is_attachment id) =
    append "input is an attachment input, not a scalar input: " id
describe (ExecutionError.attachment_not_found id) = append "attachment not found: " id
describe (ExecutionError.attachment_already_exists id) = append "attachment already exists: " id
describe (ExecutionError.attachment_input_not_found id) = append "attachment input not found: " id
describe ExecutionError.empty_attachment_batch = "attachment batch must not be empty"
describe (ExecutionError.note_not_found id) = append "note not found: " id
describe (ExecutionError.after_step_not_found id) = append "step to insert after was not found: " id
describe (ExecutionError.invalid_attachment_path path) =
    append "invalid attachment event path: " path
describe ExecutionError.replay_metadata_event =
    "LogMeta is replay metadata and cannot be applied as a state transition"
