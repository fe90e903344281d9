-- ===== src/DropPoint/Validate.antt =====
-- src-tauri/src/drop_point/session.rs: the checks on a session's state, whenever it is written and
-- read.
use procnote.Prelude.{
  String, not, ◌&&◌, ◌||◌, [], ◌∷◌, Result, ok, err, is_some, nat_eq, leb, is_empty_text,
}
use procnote.DropPoint.Session.{
  PathBuf, SessionPhase, waiting, close_pending, complete, ActiveDropPointSession,
  session_state_version,
}
use procnote.DropPoint.Urls.{Url, parsed_base_url}
use procnote.DropPoint.Links.{
  Libraries, validate_session_id, decode_key, validate_key, private_key, keys_match,
  validate_pickup, validate_sender_links,
}
use procnote.DropPoint.Checks.{
  max_protocol_bytes, try_all, ensure, validate_prefixed_value, path_starts_with, path_eq,
  check_submissions,
}

module _ (lib : Libraries) where
  unfoldable pub validate_resumable :
      ActiveDropPointSession → Result String Url → Result String (Unit {0})
  unfolding try_all validate_pickup keys_match private_key decode_key validate_sender_links
  validate_resumable s (err e) = err e
  validate_resumable s (ok base_url) = try_all (
      validate_pickup lib s.pickup_token
      ∷ keys_match lib (private_key lib s.recipient_private_key)
          (decode_key lib s.recipient_public_key "recipient public key")
      ∷ validate_sender_links lib s.recipient_public_key s.expires_at s.drop_link
          s.drop_link_with_fragment base_url
      ∷ [])

  unfoldable pub validate_phase :
      SessionPhase → ActiveDropPointSession → Result String Url → Result String (Unit {0})
  unfolding validate_resumable
  validate_phase (complete outcome) s base_url =
      ensure
        (not (
          is_some s.pickup_token
          || is_some s.recipient_private_key
          || is_some s.drop_link
          || is_some s.drop_link_with_fragment))
        "completed DropPoint private state still contains capabilities"
  validate_phase waiting s base_url = validate_resumable s base_url
  validate_phase close_pending s base_url = validate_resumable s base_url

  unfoldable pub relay_origin : Result String Url → Result String (Unit {0})
  relay_origin (ok _) = ok tt
  relay_origin (err e) = err "DropPoint private state has an invalid relay origin"

  -- What no writer changes.
  unfoldable pub validate_fixed : PathBuf → ActiveDropPointSession → Result String (Unit {0})
  unfolding try_all validate_session_id relay_origin parsed_base_url validate_prefixed_value
      validate_key path_eq path_starts_with
  validate_fixed root s = try_all (
      ensure (nat_eq s.version session_state_version) "unsupported DropPoint private-state version"
      ∷ validate_session_id lib s.session_id
      ∷ relay_origin (parsed_base_url (lib.parse_url s.base_url))
      ∷ validate_prefixed_value s.drop_point_id "dp_"
      ∷ validate_key lib s.recipient_public_key "recipient public key"
      ∷ ensure (not (nat_eq s.max_bytes 0 || not (leb s.max_bytes max_protocol_bytes)))
          "DropPoint private state has an invalid max_bytes"
      ∷ ensure (not (is_empty_text s.step_id || is_empty_text s.input_id))
          "DropPoint private state has an invalid attachment target"
      ∷ ensure (path_eq s.workspace_root root && path_starts_with s.execution_dir root)
          "DropPoint private state belongs to another workspace"
      ∷ [])

  unfoldable pub validate : PathBuf → ActiveDropPointSession → Result String (Unit {0})
  unfolding try_all validate_fixed parsed_base_url validate_phase check_submissions
  validate root s = try_all (
      validate_fixed root s
      ∷ validate_phase s.phase s (parsed_base_url (lib.parse_url s.base_url))
      ∷ check_submissions s.execution_dir s.drop_point_id s.submissions
      ∷ [])
