-- ===== src/DropPoint/Checks.antt =====
-- src-tauri/src/drop_point/session.rs: the checks on texts and paths, and on the submissions.
use procnote.Prelude.{
  ℕ, String, ◌==◌, Bool, true, false, not, ◌&&◌, ◌||◌, Option, none, some, List, [], ◌∷◌, ◌++◌,
  Result, ok, err, Keyed, append, codes, all, length, if◌then◌else◌, nat_eq, leb,
}
use procnote.DropPoint.Session.{PathBuf, SubmissionState}

-- `MAX_PROTOCOL_BYTES`, that is `1 << 40`
abbrev pub max_protocol_bytes : ℕ
max_protocol_bytes = 1099511627776

-- Checks in their order, which end at the first that fails.
unfoldable pub try_all : List (Result String (Unit {0})) → Result String (Unit {0})
try_all [] = ok tt
try_all (err e ∷ checks) = err e
try_all (ok _ ∷ checks) = try_all checks

-- `?`
unfoldable pub on_ok : {A B : Type 0} → Result String A → (A → Result String B) → Result String B
on_ok (ok a) f = f a
on_ok (err e) f = err e

abbrev pub ensure : Bool → String → Result String (Unit {0})
ensure is_good e = if is_good then ok tt else err e

abbrev pub is_digit : ℕ → Bool
is_digit c = leb 48 c && leb c 57

abbrev pub is_ascii_alphanumeric : ℕ → Bool
is_ascii_alphanumeric c = is_digit c || (leb 65 c && leb c 90) || (leb 97 c && leb c 122)

-- `text.strip_prefix(prefix)`
unfoldable pub strip_prefix : List ℕ → List ℕ → Option (List ℕ)
strip_prefix [] text = some text
strip_prefix (c ∷ prefix) [] = none
strip_prefix (c ∷ prefix) (x ∷ text) =
    let rest = strip_prefix prefix text in if nat_eq c x then rest else none

unfoldable pub is_suffix : Option (List ℕ) → Bool
is_suffix none = false
is_suffix (some []) = false
is_suffix (some (c ∷ suffix)) =
    all (c ∷ suffix) (λ x. is_ascii_alphanumeric x || nat_eq x b'-' || nat_eq x b'_')

unfoldable pub validate_prefixed_value : String → String → Result String (Unit {0})
unfolding strip_prefix is_suffix
validate_prefixed_value value prefix =
    ensure (is_suffix (strip_prefix (codes prefix) (codes value)))
      "DropPoint private state contains an invalid capability or ID"

-- A character that is no hexadecimal digit fails the test, so 64 characters are 64 bytes.
unfoldable pub validate_identity : String → Result String (Unit {0})
validate_identity value =
    ensure
      (nat_eq (length (codes value)) 64
        && all (codes value) (λ x. is_digit x || (leb 97 x && leb x 102)))
      "DropPoint private state contains an invalid bundle identity"

-- `path.starts_with(base)`
unfoldable pub path_starts_with : PathBuf → PathBuf → Bool
path_starts_with path [] = true
path_starts_with [] (c ∷ base) = false
path_starts_with (x ∷ path) (c ∷ base) =
    let rest = path_starts_with path base in if x == c then rest else false

unfoldable pub path_eq : PathBuf → PathBuf → Bool
path_eq [] [] = true
path_eq (x ∷ xs) (y ∷ ys) = let rest = path_eq xs ys in if x == y then rest else false
path_eq _ _ = false

unfoldable pub is_absolute : PathBuf → Bool
is_absolute [] = false
is_absolute (c ∷ path) = c == "/"

-- The name holds no separator: both IDs have been checked.
unfoldable pub bundle_path : PathBuf → String → String → PathBuf
bundle_path execution_dir drop_point_id id =
    execution_dir ++ "attachments" ∷ append "bundle-" (append drop_point_id (append "-" id)) ∷ []

unfoldable pub check_submission :
    PathBuf → String → String → SubmissionState → Result String (Unit {0})
unfolding try_all validate_prefixed_value validate_identity is_absolute path_eq bundle_path
check_submission execution_dir drop_point_id id x = try_all (
    validate_prefixed_value id "sub_"
    ∷ ensure (not (x.acknowledged && not x.recorded))
        "acknowledged DropPoint submission is not recorded"
    ∷ validate_identity x.bundle.identity
    ∷ ensure
        (is_absolute x.bundle.path
          && path_eq x.bundle.path (bundle_path execution_dir drop_point_id id))
        "installed DropPoint bundle path is outside its deterministic destination"
    ∷ [])

unfoldable pub check_submissions :
    PathBuf → String → Keyed SubmissionState → Result String (Unit {0})
unfolding on_ok check_submission
check_submissions execution_dir drop_point_id [] = ok tt
check_submissions execution_dir drop_point_id ((id, x) ∷ rest) =
    on_ok (check_submission execution_dir drop_point_id id x)
      (λ _. check_submissions execution_dir drop_point_id rest)
