-- ===== src/Execution/Attachments.antt =====
-- crates/procnote-core/src/execution/engine.rs: attachment paths, and the attachments of a step.
pub mod Containment
use procnote.Prelude.{
  ℕ, String, ◌==◌, Bool, true, false, ◌||◌, Option, none, some, List, [], ◌∷◌, ◌++◌, map, Result,
  ok, err, ok_or, raise, lift, gets, put, ◌>>=◌, ◌>>◌, get, insert, remove, contains_key, any,
  find?, position, erase_idx, is_empty, codes, nat_eq, if◌then◌else◌,
}
use procnote.Event.{Timestamp, AttachmentRecord}
use procnote.Execution.State.{
  ExecutionError, RecordedAttachment, StepState, StepAction, from_record_at,
}
use procnote.Execution.Steps.{require_attachment_input}

abbrev pub slash : ℕ
slash = b'/'

abbrev pub backslash : ℕ
backslash = 92

-- `text.contains(c)`
unfoldable pub contains : List ℕ → ℕ → Bool
contains text c = any text (λ x. nat_eq x c)

-- `text.starts_with(c)`
unfoldable pub starts_with : List ℕ → ℕ → Bool
starts_with [] c = false
starts_with (x ∷ text) c = nat_eq x c

push_char : ℕ → List (List ℕ) → List (List ℕ)
push_char c [] = (c ∷ []) ∷ []
push_char c (segment ∷ segments) = (c ∷ segment) ∷ segments

-- `text.split(c)`: one segment more than there are separators
unfoldable pub split : ℕ → List ℕ → List (List ℕ)
unfolding push_char
split c [] = [] ∷ []
split c (x ∷ text) = let rest = split c text in if nat_eq x c then [] ∷ rest else push_char x rest

abbrev pub text_eq : List ℕ → List ℕ → Bool
text_eq [] [] = true
text_eq (x ∷ xs) (y ∷ ys) = let rest = text_eq xs ys in if nat_eq x y then rest else false
text_eq _ _ = false

unfoldable pub is_bad_segment : List ℕ → Bool
unfolding contains
is_bad_segment segment =
    is_empty segment
    || text_eq segment (codes ".")
    || text_eq segment (codes "..")
    || contains segment b':'

unfoldable pub is_bad_path : List ℕ → Bool
unfolding contains starts_with split is_bad_segment
is_bad_path path =
    is_empty path
    || starts_with path slash
    || starts_with path backslash
    || contains path backslash
    || any (split slash path) is_bad_segment

unfoldable pub validate_attachment_path : String → Result ExecutionError (Unit {0})
unfolding is_bad_path
validate_attachment_path path =
    if is_bad_path (codes path) then err (ExecutionError.invalid_attachment_path path) else ok tt

-- `attachments.iter().try_for_each(..)`
unfoldable pub validate_attachment_paths : List AttachmentRecord → Result ExecutionError (Unit {0})
validate_attachment_paths [] = ok tt
validate_attachment_paths (a ∷ attachments) =
    let rest = validate_attachment_paths attachments in
    elim (validate_attachment_path a.path) [ ok _ ↦ rest | err e ↦ err e ]

unfoldable pub duplicate_attachment_path : List AttachmentRecord → Option String
duplicate_attachment_path [] = none
duplicate_attachment_path (r ∷ rest) =
    let later = duplicate_attachment_path rest in
    if any rest (λ other. other.path == r.path) then some r.path else later

-- `entry(input_id).or_default()`
files_or_default : Option (List RecordedAttachment) → List RecordedAttachment
files_or_default none = []
files_or_default (some files) = files

-- The first record whose path is among the stored files.
unfoldable pub stored_duplicate :
    List RecordedAttachment → List AttachmentRecord → Option AttachmentRecord
stored_duplicate existing attachments =
    find? (λ r. any existing (λ stored. stored.path == r.path)) attachments

no_duplicate : Option String → Result ExecutionError (Unit {0})
no_duplicate none = ok tt
no_duplicate (some path) = err (ExecutionError.attachment_already_exists path)

no_stored_duplicate : Option AttachmentRecord → Result ExecutionError (Unit {0})
no_stored_duplicate none = ok tt
no_stored_duplicate (some r) = err (ExecutionError.attachment_already_exists r.path)

-- `entry(..).or_default()` writes an empty list before the last check.
unfoldable pub add_attachments_to_step :
    String → List AttachmentRecord → Timestamp → StepAction (Unit {0})
unfolding files_or_default no_duplicate no_stored_duplicate
add_attachments_to_step input_id [] at = raise ExecutionError.empty_attachment_batch
add_attachments_to_step input_id (a ∷ rest) at = do
  let attachments = a ∷ rest
  step ← gets (λ s. s)
  lift (require_attachment_input step input_id)
  if contains_key input_id step.inputs
      then raise (ExecutionError.input_already_recorded input_id)
      else do
        lift (no_duplicate (duplicate_attachment_path attachments))
        let existing = files_or_default (get input_id step.attachments)
        put (record step { attachments = insert input_id existing step.attachments })
        lift (no_stored_duplicate (stored_duplicate existing attachments))
        let files = existing ++ map (λ r. from_record_at r at) attachments
        put (record step {
          attachments = insert input_id files (insert input_id existing step.attachments);
        })

-- After `files.remove(index)`: an emptied entry is dropped.
unfoldable pub write_files : String → List RecordedAttachment → StepState → StepState
write_files input_id files step =
    if is_empty files
    then record step { attachments = remove input_id (insert input_id files step.attachments) }
    else record step { attachments = insert input_id files step.attachments }

unfoldable pub remove_attachment_file_from_step : String → String → StepAction (Unit {0})
unfolding write_files
remove_attachment_file_from_step input_id path = do
  step ← gets (λ s. s)
  files ←
      lift (ok_or (get input_id step.attachments) (ExecutionError.attachment_not_found input_id))
  index ← lift (
      ok_or (position (λ file. file.path == path) files) (ExecutionError.attachment_not_found path))
  put (write_files input_id (erase_idx files index) step)

removed_files : String → Option (List RecordedAttachment) → Result ExecutionError (Unit {0})
removed_files input_id (some (_ ∷ _)) = ok tt
removed_files input_id _ = err (ExecutionError.attachment_not_found input_id)

-- The entry is removed before it is looked at.
unfoldable pub clear_attachments_from_step : String → StepAction (Unit {0})
unfolding removed_files
clear_attachments_from_step input_id = do
  step ← gets (λ s. s)
  put (record step { attachments = remove input_id step.attachments })
  lift (removed_files input_id (get input_id step.attachments))
