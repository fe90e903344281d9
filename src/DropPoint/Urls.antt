-- ===== src/DropPoint/Urls.antt =====
-- src-tauri/src/drop_point/client.rs: which addresses of a relay are taken. A `Url` is what the URL
-- library reads from a text; `text` is its serialization.
use procnote.Prelude.{
  ℕ, String, ◌==◌, Bool, true, false, not, ◌&&◌, ◌||◌, Option, none, some, List, Result, ok, err,
  append, if◌then◌else◌, is_some, nat_eq, is_empty_text,
}

pub record Url : Type 0 where
  pub scheme : String
  pub host_str : Option String
  pub port_or_known_default : Option ℕ
  pub username : String
  pub password : Option String
  pub path : String
  pub path_segments : Option (List String)
  pub query : Option String
  pub fragment : Option String
  pub text : String

-- `ENV_URL`
abbrev pub env_url : String
env_url = "PROCNOTE_DROPPOINT_URL"

unfoldable pub is_loopback : Option String → Bool
is_loopback none = false
is_loopback (some host) =
    host == "localhost" || host == "127.0.0.1" || host == "::1" || host == "[::1]"

unfoldable pub is_loopback_http_url : Url → Bool
unfolding is_loopback
is_loopback_http_url url = url.scheme == "http" && is_loopback url.host_str

unfoldable pub check_base_url : Url → Result String Url
unfolding is_loopback_http_url
check_base_url url =
    if not (url.scheme == "http" || url.scheme == "https") || not (is_some url.host_str)
    then err (append env_url " must be an HTTP(S) origin")
    else if not (is_empty_text url.username) || is_some url.password
    then err (append env_url " must not include user info")
    else if not (is_empty_text url.path || url.path == "/")
    then err (append env_url " must not include a path prefix")
    else if is_some url.query || is_some url.fragment
    then err (append env_url " must not include query or fragment")
    else if not (url.scheme == "https") && not (is_loopback_http_url url)
    then err (append env_url " must use https (http is only allowed for localhost)")
    else ok url

unfoldable pub parsed_base_url : Result String Url → Result String Url
unfolding check_base_url
parsed_base_url (err e) = err (append env_url (append " is invalid: " e))
parsed_base_url (ok url) = check_base_url url

unfoldable pub text_option_eq : Option String → Option String → Bool
text_option_eq none none = true
text_option_eq (some a) (some b) = a == b
text_option_eq _ _ = false

unfoldable pub port_eq : Option ℕ → Option ℕ → Bool
port_eq none none = true
port_eq (some a) (some b) = nat_eq a b
port_eq _ _ = false

unfoldable pub same_origin : Url → Url → Bool
unfolding text_option_eq port_eq
same_origin expected actual =
    expected.scheme == actual.scheme
    && text_option_eq expected.host_str actual.host_str
    && port_eq expected.port_or_known_default actual.port_or_known_default
