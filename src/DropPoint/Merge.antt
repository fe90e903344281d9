-- ===== src/DropPoint/Merge.antt =====
-- src-tauri/src/drop_point/session.rs: what a session's stored state becomes when a state is persisted
-- over it.
pub mod Follows
pub mod Submissions
pub mod Progress
pub mod Good
pub mod Valid
use procnote.Prelude.{
  ℕ, String, ◌==◌, Bool, true, false, not, ◌&&◌, ◌||◌, Option, none, some, List, [], ◌∷◌, Result,
  ok, err, Keyed, get, insert, if◌then◌else◌, nat_eq, leb,
}
use procnote.DropPoint.Session.{
  InstalledBundleState, SubmissionState, SessionPhase, waiting, close_pending, complete,
  ActiveDropPointSession, is_complete,
}
use procnote.DropPoint.Checks.{path_eq, on_ok}

unfoldable pub same_session_identity : ActiveDropPointSession → ActiveDropPointSession → Bool
unfolding path_eq
same_session_identity left right =
    nat_eq left.version right.version
    && left.session_id == right.session_id
    && left.base_url == right.base_url
    && left.drop_point_id == right.drop_point_id
    && left.display_name == right.display_name
    && left.recipient_public_key == right.recipient_public_key
    && nat_eq left.execution_id right.execution_id
    && left.step_id == right.step_id
    && left.input_id == right.input_id
    && nat_eq left.expires_at right.expires_at
    && nat_eq left.max_bytes right.max_bytes
    && path_eq left.execution_dir right.execution_dir
    && path_eq left.workspace_root right.workspace_root

unfoldable pub phase_rank : SessionPhase → ℕ
phase_rank waiting = 0
phase_rank close_pending = 1
phase_rank (complete outcome) = 2

unfoldable pub bundle_eq : InstalledBundleState → InstalledBundleState → Bool
unfolding path_eq
bundle_eq a b = a.identity == b.identity && path_eq a.path b.path

-- `old` is the stored submission, and the first argument what the proposed state has under its ID.
unfoldable pub merged_submission :
    Option SubmissionState → SubmissionState → Result String SubmissionState
unfolding bundle_eq
merged_submission none old = ok old
merged_submission (some new) old =
    if not (bundle_eq new.bundle old.bundle)
    then err "DropPoint private-state bundle identity conflict"
    else ok (record {
      bundle = new.bundle;
      recorded = new.recorded || old.recorded;
      acknowledged = new.acknowledged || old.acknowledged;
    })

unfoldable pub merge_submissions :
    Keyed SubmissionState → Keyed SubmissionState → Result String (Keyed SubmissionState)
unfolding on_ok merged_submission
merge_submissions [] merged = ok merged
merge_submissions ((id, old) ∷ rest) merged =
    on_ok (merged_submission (get id merged) old) (λ x. merge_submissions rest (insert id x merged))

unfoldable pub advanced :
    ActiveDropPointSession
    → ActiveDropPointSession
    → Result String (Keyed SubmissionState)
    → Result String (Option ActiveDropPointSession)
unfolding phase_rank
advanced current proposed (err e) = err e
advanced current proposed (ok submissions) =
    if not (leb (phase_rank current.phase) (phase_rank proposed.phase))
    then ok none
    else ok (some (record proposed { submissions = submissions }))

unfoldable pub merge_transition :
    ActiveDropPointSession → ActiveDropPointSession → Result String (Option ActiveDropPointSession)
unfolding same_session_identity is_complete merge_submissions advanced
merge_transition current proposed =
    if not (same_session_identity current proposed)
    then err "refusing to replace different DropPoint private state"
    else if is_complete current.phase
    then ok none
    else advanced current proposed (merge_submissions current.submissions proposed.submissions)
