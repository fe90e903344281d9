-- ===== src/App/Sync/Files.antt =====
-- crates/procnote-app/src/sync.rs: lemmas on the files that come with a pushed event.
use procnote.Prelude.{
  All-map, String, true, ◌≡◌, refl, ◌⊎◌, inl, inr, none, some, List, [], ◌∷◌, Result, ok, err, any,
  All, Bool-cases, or_true_left, or_true_right, Option-cases,
}
use procnote.Event.{AttachmentRecord}
use procnote.Execution.State.{ExecutionState}
use procnote.App.Repository.{StagedFile, has_content}
use procnote.App.Sync.{record_eq, find_upload, add_file, collect_files}

-- The content of the attachment comes with the decision, or the execution has it.
abbrev pub IsStored : ExecutionState → List StagedFile → AttachmentRecord → Type 0
IsStored s files r = (any files (λ f. record_eq f.file r) ≡ true) ⊎ (has_content s r.sha256 ≡ true)

-- The files that were collected are those that the records ask for.
abbrev pub Collected :
    ExecutionState → List AttachmentRecord → Result String (List StagedFile) → Type 0
Collected s records (ok files) =
    All (IsStored s files) records
    × All (λ (f : StagedFile). any records (record_eq f.file) ≡ true) files
Collected s records (err e) = Unit

IsStored-more :
    (s : ExecutionState) (f : StagedFile) (files : List StagedFile) (r : AttachmentRecord)
    → IsStored s files r
    → IsStored s (f ∷ files) r
IsStored-more s f files r (inl h) = inl (or_true_right _ _ h)
IsStored-more s f files r (inr h) = inr h

Collected-upload :
    (s : ExecutionState) (r : AttachmentRecord) (records : List AttachmentRecord) (f : StagedFile)
    (rest : Result String (List StagedFile))
    → record_eq f.file r ≡ true
    → Collected s records rest
    → Collected s (r ∷ records) (add_file f rest)
unfolding add_file
Collected-upload s r records f (err e) same h = tt
Collected-upload s r records f (ok files) same (stored, asked) = (
  (inl (or_true_left _ _ same), All-map records (IsStored-more s f files) stored),
  (or_true_left _ _ same, All-map files (λ g h. or_true_right _ _ h) asked),
)

Collected-held :
    (s : ExecutionState) (r : AttachmentRecord) (records : List AttachmentRecord)
    (rest : Result String (List StagedFile))
    → has_content s r.sha256 ≡ true
    → Collected s records rest
    → Collected s (r ∷ records) rest
Collected-held s r records (err e) held h = tt
Collected-held s r records (ok files) held (stored, asked) =
    ((inr held, stored), All-map files (λ g h. or_true_right _ _ h) asked)

pub collect_files-Collected :
    (s : ExecutionState) (uploaded : List StagedFile) (records : List AttachmentRecord)
    → Collected s records (collect_files s uploaded records)
unfolding collect_files
collect_files-Collected s uploaded [] = (tt, tt)
collect_files-Collected s uploaded (r ∷ records) =
    elim (Option-cases (find_upload r.sha256 uploaded)) [
      | inl missing ↦ elim (Bool-cases (has_content s r.sha256)) [
        | inl held ↦
            rw (missing, held, collect_files)
              (Collected-held s r records (collect_files s uploaded records) held
                (collect_files-Collected s uploaded records))
        | inr unheld ↦ rw (missing, unheld, collect_files) tt
      ]
      | inr (f, found) ↦ elim (Bool-cases (record_eq f.file r)) [
        | inl same ↦
            rw (found, same, collect_files)
              (Collected-upload s r records f (collect_files s uploaded records) same
                (collect_files-Collected s uploaded records))
        | inr other ↦ rw (found, other, collect_files) tt
      ]
    ]

-- The file was uploaded as the event describes it, or nothing of its content was uploaded and the
-- execution has it.
abbrev pub IsProvided : ExecutionState → List StagedFile → AttachmentRecord → Type 0
IsProvided s uploaded r =
    ((f : StagedFile) × (find_upload r.sha256 uploaded ≡ some f) × (record_eq f.file r ≡ true))
    ⊎ ((find_upload r.sha256 uploaded ≡ none) × (has_content s r.sha256 ≡ true))

add_file-ok :
    (f : StagedFile) (x : Result String (List StagedFile))
    → ((files : List StagedFile) × (x ≡ ok files))
    → (files : List StagedFile) × (add_file f x ≡ ok files)
unfolding add_file
add_file-ok f (ok files) h = (f ∷ files, refl)
add_file-ok f (err e) h = cc h.1

pub collect_files-ok :
    (s : ExecutionState) (uploaded : List StagedFile) (records : List AttachmentRecord)
    → All (IsProvided s uploaded) records
    → (files : List StagedFile) × (collect_files s uploaded records ≡ ok files)
unfolding collect_files
collect_files-ok s uploaded [] h = ([], refl)
collect_files-ok s uploaded (r ∷ records) (inl (f, found, same), h) =
    rw (found, same, collect_files)
      (add_file-ok f (collect_files s uploaded records) (collect_files-ok s uploaded records h))
collect_files-ok s uploaded (r ∷ records) (inr (missing, held), h) =
    rw (missing, held, collect_files) (collect_files-ok s uploaded records h)
