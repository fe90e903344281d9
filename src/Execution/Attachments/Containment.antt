-- ===== src/Execution/Attachments/Containment.antt =====
-- crates/procnote-core/src/execution/engine.rs: lemmas on `validate_attachment_path`.
use procnote.Prelude.{
  ℕ, String, false, ◌||◌, ◌≡◌, sym, ◌∙◌, inl, inr, List, [], ◌∷◌, ◌++◌, ok, arith, any, is_empty,
  codes, Bool-cases, if◌then◌else◌,
}
use mathlib.Core.List.{append_assoc, append-nil}
use procnote.Execution.Attachments.{
  split, slash, is_bad_segment, is_bad_path, validate_attachment_path, text_eq,
}

-- A directory, from the root down.
abbrev pub Directory : Type 0
Directory = List (List ℕ)

abbrev pub parent : Directory → Directory
parent [] = []
parent (_ ∷ []) = []
parent (d ∷ e ∷ ds) = d ∷ parent (e ∷ ds)

-- Where one segment of a path leads.
abbrev pub enter : Directory → List ℕ → Directory
enter dir segment =
    if is_empty segment || text_eq segment (codes ".")
    then dir
    else if text_eq segment (codes "..")
    then parent dir
    else dir ++ segment ∷ []

-- Where a relative path leads from a directory.
abbrev pub resolve : Directory → List (List ℕ) → Directory
resolve dir [] = dir
resolve dir (segment ∷ segments) = resolve (enter dir segment) segments

enter_good :
    (dir : Directory) (segment : List ℕ)
    → is_bad_segment segment ≡ false
    → enter dir segment ≡ dir ++ segment ∷ []
unfolding is_bad_segment
enter_good dir segment h = ground arith

resolve_good :
    (dir : Directory) (segments : List (List ℕ))
    → any segments is_bad_segment ≡ false
    → resolve dir segments ≡ dir ++ segments
resolve_good dir [] h = sym (append-nil dir)
resolve_good dir (segment ∷ segments) h = rw (enter_good dir segment (ground (arith, h))) (
    resolve_good (dir ++ segment ∷ []) segments (ground (arith, h))
    ∙ append_assoc dir (segment ∷ []) segments)

valid_path :
    (path : String) → validate_attachment_path path ≡ ok tt → is_bad_path (codes path) ≡ false
unfolding validate_attachment_path
valid_path path h = elim (Bool-cases (is_bad_path (codes path))) [
  | inl bad ↦ cc (rw bad at h)
  | inr good ↦ good
]

good_segments :
    (path : List ℕ) → is_bad_path path ≡ false → any (split slash path) is_bad_segment ≡ false
unfolding is_bad_path
good_segments path h = ground (arith, h)

-- An accepted attachment path stays in the execution's directory: resolved from any directory, it
-- leads to the entry that its segments name below this directory, one level each, and none of them
-- leads back up or to the same place.
pub validate_attachment_path-resolve :
    (path : String) (dir : Directory)
    → validate_attachment_path path ≡ ok tt
    → resolve dir (split slash (codes path)) ≡ dir ++ split slash (codes path)
validate_attachment_path-resolve path dir h =
    resolve_good dir (split slash (codes path)) (good_segments (codes path) (valid_path path h))
