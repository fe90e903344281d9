-- ===== src/Execution/Lifecycle.antt =====
-- crates/procnote-core/src/execution/engine.rs: the arms of `apply` for the life of an execution.
use procnote.Prelude.{
  String, none, some, Result, ok, err, raise, lift, gets, put, ◌>>=◌, ◌>>◌, is_some, if◌then◌else◌,
}
use procnote.Event.{Timestamp, ExecutionId, CompletionStatus}
use procnote.Execution.State.{ExecutionError, ExecutionStatus, pending, active, finished, Action}
use procnote.Execution.Guards.{require_active, require_finished}

unfoldable pub start_result : ExecutionStatus → Result ExecutionError (Unit {0})
start_result pending = ok tt
start_result active = err ExecutionError.already_started
start_result (finished _) = err ExecutionError.already_finished

unfoldable pub apply_started :
    Timestamp → ExecutionId → String → String → String → Action (Unit {0})
unfolding start_result
apply_started at execution_id procedure_id procedure_title procedure_version = do
  s ← gets (λ s. s)
  lift (start_result s.status)
  put (record s {
    execution_id = some execution_id;
    procedure_id = some procedure_id;
    procedure_title = some procedure_title;
    procedure_version = some procedure_version;
    status = active;
    started_at = some at;
    finished_at = none;
  })

-- `ExecutionCompleted`, and `ExecutionAborted` with the status `aborted`
unfoldable pub apply_finished : Timestamp → CompletionStatus → Action (Unit {0})
unfolding require_active
apply_finished at status = do
  require_active
  s ← gets (λ s. s)
  put (record s { status = finished status; finished_at = some at })

unfoldable pub apply_reopened : Action (Unit {0})
unfolding require_finished
apply_reopened = do
  require_finished
  s ← gets (λ s. s)
  put (record s { status = active; finished_at = none })

unfoldable pub apply_renamed : String → Action (Unit {0})
apply_renamed name = do
  s ← gets (λ s. s)
  if is_some s.execution_id
      then put (record s { name = some name })
      else raise ExecutionError.not_started
