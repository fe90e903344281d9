-- ===== src/DropPoint/Session.antt =====
-- src-tauri/src/drop_point/session.rs: the state of a session and the changes that its owner makes to
-- it. Paths are lists of components, of which "/" is the root. A `BTreeMap` is a list of entries.
use procnote.Prelude.{
  ℕ, String, Bool, true, false, not, Option, none, some, List, [], Result, ok, err, Keyed, get,
  insert, values, any, if◌then◌else◌,
}
use procnote.Event.{Timestamp, ExecutionId}

abbrev pub PathBuf : Type 0
PathBuf = List String

pub record InstalledBundleState : Type 0 where
  pub identity : String
  pub path : PathBuf

pub data CompletionOutcome : Type 0 where
  closed_successfully : CompletionOutcome
  remote_already_closed : CompletionOutcome
  expired : CompletionOutcome
  failed : CompletionOutcome
  not_found : CompletionOutcome

pub data SessionPhase : Type 0 where
  waiting : SessionPhase
  close_pending : SessionPhase
  complete : CompletionOutcome → SessionPhase

pub record SubmissionState : Type 0 where
  pub bundle : InstalledBundleState
  pub recorded : Bool
  pub acknowledged : Bool

-- `SESSION_STATE_VERSION`
abbrev pub session_state_version : ℕ
session_state_version = 2

pub record NewDropPointSession : Type 0 where
  pub session_id : String
  pub base_url : String
  pub drop_point_id : String
  pub display_name : String
  pub pickup_token : String
  pub recipient_private_key : String
  pub recipient_public_key : String
  pub drop_link : String
  pub drop_link_with_fragment : String
  pub execution_id : ExecutionId
  pub step_id : String
  pub input_id : String
  pub expires_at : Timestamp
  pub max_bytes : ℕ
  pub execution_dir : PathBuf
  pub workspace_root : PathBuf

pub record ActiveDropPointSession : Type 0 where
  pub version : ℕ
  pub session_id : String
  pub base_url : String
  pub drop_point_id : String
  pub display_name : String
  pub pickup_token : Option String
  pub recipient_private_key : Option String
  pub recipient_public_key : String
  pub drop_link : Option String
  pub drop_link_with_fragment : Option String
  pub execution_id : ExecutionId
  pub step_id : String
  pub input_id : String
  pub expires_at : Timestamp
  pub max_bytes : ℕ
  pub execution_dir : PathBuf
  pub workspace_root : PathBuf
  pub phase : SessionPhase
  pub submissions : Keyed SubmissionState

unfoldable pub new : NewDropPointSession → ActiveDropPointSession
new v = record {
  version = session_state_version;
  session_id = v.session_id;
  base_url = v.base_url;
  drop_point_id = v.drop_point_id;
  display_name = v.display_name;
  pickup_token = some v.pickup_token;
  recipient_private_key = some v.recipient_private_key;
  recipient_public_key = v.recipient_public_key;
  drop_link = some v.drop_link;
  drop_link_with_fragment = some v.drop_link_with_fragment;
  execution_id = v.execution_id;
  step_id = v.step_id;
  input_id = v.input_id;
  expires_at = v.expires_at;
  max_bytes = v.max_bytes;
  execution_dir = v.execution_dir;
  workspace_root = v.workspace_root;
  phase = waiting;
  submissions = [];
}

unfoldable pub pending_local_imports : ActiveDropPointSession → Bool
pending_local_imports s = any (values s.submissions) (λ submission. not submission.acknowledged)

-- `entry(submission_id).or_insert(…)`
unfoldable pub or_insert :
    Option SubmissionState
    → String
    → SubmissionState
    → Keyed SubmissionState
    → Keyed SubmissionState
or_insert (some known) id submission m = m
or_insert none id submission m = insert id submission m

unfoldable pub with_bundle_installed :
    String → InstalledBundleState → ActiveDropPointSession → ActiveDropPointSession
unfolding or_insert
with_bundle_installed id bundle s = record s {
  submissions =
      or_insert (get id s.submissions) id
        (record { bundle = bundle; recorded = false; acknowledged = false }) s.submissions;
}

unfoldable pub with_close_pending : ActiveDropPointSession → ActiveDropPointSession
with_close_pending s = record s { phase = close_pending }

unfoldable pub write_submission :
    String
    → ActiveDropPointSession
    → Result String SubmissionState
    → Result String ActiveDropPointSession
write_submission id s (ok submission) =
    ok (record s { submissions = insert id submission s.submissions })
write_submission id s (err e) = err e

unfoldable pub recorded_submission : Option SubmissionState → Result String SubmissionState
recorded_submission none = err "unknown DropPoint submission"
recorded_submission (some submission) = ok (record submission { recorded = true })

unfoldable pub with_submission_recorded :
    String → ActiveDropPointSession → Result String ActiveDropPointSession
unfolding write_submission recorded_submission
with_submission_recorded id s = write_submission id s (recorded_submission (get id s.submissions))

unfoldable pub acknowledged_submission : Option SubmissionState → Result String SubmissionState
acknowledged_submission none = err "unknown DropPoint submission"
acknowledged_submission (some submission) =
    if not submission.recorded
    then err "cannot acknowledge an unrecorded DropPoint submission"
    else ok (record submission { acknowledged = true })

unfoldable pub with_submission_acknowledged :
    String → ActiveDropPointSession → Result String ActiveDropPointSession
unfolding write_submission acknowledged_submission
with_submission_acknowledged id s =
    write_submission id s (acknowledged_submission (get id s.submissions))

unfoldable pub with_complete : CompletionOutcome → ActiveDropPointSession → ActiveDropPointSession
with_complete outcome s = record s {
  phase = complete outcome;
  pickup_token = none;
  recipient_private_key = none;
  drop_link = none;
  drop_link_with_fragment = none;
}

unfoldable pub is_complete : SessionPhase → Bool
is_complete (complete outcome) = true
is_complete _ = false

unfoldable pub is_resumable : ActiveDropPointSession → Bool
unfolding is_complete
is_resumable s = not (is_complete s.phase)

-- The changes that the owner of a session makes to it, but for the arrival of a bundle.
pub data Change : Type 0 where
  closed : Change
  recorded_as : String → Change
  acknowledged_as : String → Change
  completed : CompletionOutcome → Change

unfoldable pub changed : Change → ActiveDropPointSession → Result String ActiveDropPointSession
unfolding with_close_pending with_submission_recorded with_submission_acknowledged with_complete
changed closed s = ok (with_close_pending s)
changed (recorded_as id) s = with_submission_recorded id s
changed (acknowledged_as id) s = with_submission_acknowledged id s
changed (completed outcome) s = ok (with_complete outcome s)
