-- ===== src/DropPoint/Fixture.antt =====
-- A session that waits for files through a relay, with one bundle of them installed, and stand-ins for
-- the libraries that read its addresses and keys.
use procnote.Prelude.{
  ℕ, String, ◌==◌, none, some, List, [], ◌∷◌, Result, ok, err, if◌then◌else◌, zero, suc, false,
}
use procnote.DropPoint.Session.{PathBuf, InstalledBundleState, waiting, ActiveDropPointSession}
use procnote.DropPoint.Urls.{Url}
use procnote.DropPoint.Links.{Libraries}

abbrev zeros : ℕ → List ℕ
zeros zero = []
zeros (suc n) = 0 ∷ zeros n

abbrev relay : Url
relay = record {
  scheme = "https";
  host_str = some "relay.example";
  port_or_known_default = some 443;
  username = "";
  password = none;
  path = "/";
  path_segments = some ("" ∷ []);
  query = none;
  fragment = none;
  text = "https://relay.example/";
}

abbrev link : Url
link = record relay {
  path = "/drop/drop_a";
  path_segments = some ("drop" ∷ "drop_a" ∷ []);
  text = "https://relay.example/drop/drop_a";
}

abbrev parse : String → Result String Url
parse text =
    if text == "https://relay.example/"
    then ok relay
    else if text == "https://relay.example/drop/drop_a"
    then ok link
    else if text == "https://relay.example/drop/drop_a#v=2"
    then ok (record link { fragment = some "v=2"; text = text })
    else err "relative URL without a base"

abbrev pub libraries : Libraries
libraries = record {
  uuid_text = λ text. some text;
  decode = λ text. some (zeros 32);
  public_of = λ key. key;
  parse_url = parse;
  without_fragment = λ url. record url { fragment = none; text = link.text };
  form_pairs = λ text. ("v", "2") ∷ ("pk", "public") ∷ ("exp", "900") ∷ [];
  parse_time = λ text. some 900;
}

abbrev pub workspace : PathBuf
workspace = "/" ∷ "work" ∷ []

abbrev pub bundle : InstalledBundleState
bundle = record {
  identity = "0123456789abcdef0123456789abcdef0123456789abcdef0123456789abcdef";
  path = "/" ∷ "work" ∷ "run" ∷ "attachments" ∷ "bundle-dp_1-sub_1" ∷ [];
}

abbrev pub session : ActiveDropPointSession
session = record {
  version = 2;
  session_id = "s1";
  base_url = "https://relay.example/";
  drop_point_id = "dp_1";
  display_name = "photos";
  pickup_token = some "pick_1";
  recipient_private_key = some "private";
  recipient_public_key = "public";
  drop_link = some "https://relay.example/drop/drop_a";
  drop_link_with_fragment = some "https://relay.example/drop/drop_a#v=2";
  execution_id = 7;
  step_id = "step";
  input_id = "photos";
  expires_at = 900;
  max_bytes = 1000;
  execution_dir = "/" ∷ "work" ∷ "run" ∷ [];
  workspace_root = workspace;
  phase = waiting;
  submissions = ("sub_1", record { bundle = bundle; recorded = false; acknowledged = false }) ∷ [];
}
