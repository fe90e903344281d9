-- ===== src/DropPoint/Links.antt =====
-- src-tauri/src/drop_point/session.rs: the checks on IDs, keys and addresses. The libraries' functions
-- are parameters: `uuid_text` parses a UUID and prints it, `decode` is base64url, `public_of` the public
-- key of a private one, `parse_url` reads an address, `without_fragment` is `set_fragment(None)`,
-- `form_pairs` splits a form, and `parse_time` reads a time.
use procnote.Prelude.{
  ℕ, String, ◌==◌, Bool, true, false, not, ◌&&◌, Option, none, some, List, [], ◌∷◌, Result, ok, err,
  append, length, if◌then◌else◌, is_some, nat_eq, is_empty_text,
}
use procnote.Event.{Timestamp}
use procnote.Execution.Attachments.{text_eq}
use procnote.DropPoint.Session.{}
use procnote.DropPoint.Urls.{Url, same_origin}
use procnote.DropPoint.Checks.{ensure, validate_prefixed_value}

pub record Libraries : Type 0 where
  pub uuid_text : String → Option String
  pub decode : String → Option (List ℕ)
  pub public_of : List ℕ → List ℕ
  pub parse_url : String → Result String Url
  pub without_fragment : Url → Url
  pub form_pairs : String → List (String × String)
  pub parse_time : String → Option Timestamp

module _ (lib : Libraries) where
  unfoldable pub check_uuid : String → Option String → Result String (Unit {0})
  check_uuid value none = err "DropPoint session ID is invalid"
  check_uuid value (some text) = ensure (text == value) "DropPoint session ID is not canonical"

  unfoldable pub validate_session_id : String → Result String (Unit {0})
  unfolding check_uuid
  validate_session_id value = check_uuid value (lib.uuid_text value)

  unfoldable pub decoded_key : Option (List ℕ) → String → Result String (List ℕ)
  decoded_key none label = err (append "invalid " (append label " encoding"))
  decoded_key (some bytes) label =
      if nat_eq (length bytes) 32 then ok bytes else err (append label " must contain 32 raw bytes")

  unfoldable pub decode_key : String → String → Result String (List ℕ)
  unfolding decoded_key
  decode_key value label = decoded_key (lib.decode value) label

  unfoldable pub checked_key : Result String (List ℕ) → Result String (Unit {0})
  checked_key (ok _) = ok tt
  checked_key (err e) = err e

  unfoldable pub validate_key : String → String → Result String (Unit {0})
  unfolding decode_key checked_key
  validate_key value label = checked_key (decode_key value label)

  unfoldable pub private_key : Option String → Result String (List ℕ)
  unfolding decode_key
  private_key none = err "DropPoint session no longer has a recipient private key"
  private_key (some encoded) = decode_key encoded "recipient private key"

  unfoldable pub keys_match :
      Result String (List ℕ) → Result String (List ℕ) → Result String (Unit {0})
  keys_match (err e) public = err e
  keys_match (ok private) (err e) = err e
  keys_match (ok private) (ok public) =
      ensure (text_eq public (lib.public_of private))
        "DropPoint private-state public and private keys do not match"

  unfoldable pub validate_pickup : Option String → Result String (Unit {0})
  unfolding validate_prefixed_value
  validate_pickup none = err "resumable DropPoint private state is missing its pickup capability"
  validate_pickup (some pickup) = validate_prefixed_value pickup "pick_"

  unfoldable pub is_valid : Result String (Unit {0}) → Bool
  is_valid (ok _) = true
  is_valid (err e) = false

  -- `["drop", token]` with a token of the relay
  unfoldable pub is_drop_path : Option (List String) → Bool
  unfolding validate_prefixed_value is_valid
  is_drop_path (some (drop ∷ token ∷ [])) =
      drop == "drop" && is_valid (validate_prefixed_value token "drop_")
  is_drop_path _ = false

  unfoldable pub is_drop_link : Url → Url → Bool
  unfolding same_origin is_drop_path
  is_drop_link base_url link =
      same_origin base_url link
      && is_empty_text link.username
      && not (is_some link.password)
      && not (is_some link.query)
      && not (is_some link.fragment)
      && is_drop_path link.path_segments

  unfoldable pub is_time : Timestamp → Option Timestamp → Bool
  is_time expires_at none = false
  is_time expires_at (some at) = nat_eq at expires_at

  unfoldable pub is_valid_fragment : String → Timestamp → List (String × String) → Bool
  unfolding is_time
  is_valid_fragment public_key expires_at ((v, version) ∷ (pk, public) ∷ (exp, expiry) ∷ []) =
      v == "v"
      && version == "2"
      && pk == "pk"
      && public == public_key
      && exp == "exp"
      && is_time expires_at (lib.parse_time expiry)
  is_valid_fragment public_key expires_at _ = false

  unfoldable pub check_fragment :
      String → Timestamp → Url → Url → Option String → Result String (Unit {0})
  unfolding is_valid_fragment
  check_fragment public_key expires_at link full none =
      err "DropPoint private state sender link has no key fragment"
  check_fragment public_key expires_at link full (some fragment) =
      ensure
        (is_valid_fragment public_key expires_at (lib.form_pairs fragment)
          && (lib.without_fragment full).text == link.text)
        "DropPoint private state sender link fragment is invalid"

  unfoldable pub check_full_link :
      String → Timestamp → Url → Result String Url → Result String (Unit {0})
  unfolding check_fragment
  check_full_link public_key expires_at link (err e) =
      err "DropPoint private state has an invalid full sender link"
  check_full_link public_key expires_at link (ok full) =
      check_fragment public_key expires_at link full full.fragment

  unfoldable pub check_links :
      String → Timestamp → String → Url → Result String Url → Result String (Unit {0})
  unfolding is_drop_link check_full_link
  check_links public_key expires_at full base_url (err e) =
      err "DropPoint private state has an invalid sender link"
  check_links public_key expires_at full base_url (ok link) =
      if not (is_drop_link base_url link)
      then err "DropPoint private state has an invalid sender link"
      else check_full_link public_key expires_at link (lib.parse_url full)

  -- `validate_sender_links`, with the addresses as stored
  unfoldable pub validate_sender_links :
      String → Timestamp → Option String → Option String → Url → Result String (Unit {0})
  unfolding check_links
  validate_sender_links public_key expires_at (some link) (some full) base_url =
      check_links public_key expires_at full base_url (lib.parse_url link)
  validate_sender_links public_key expires_at _ _ base_url =
      err "resumable DropPoint private state is missing its sender link"
