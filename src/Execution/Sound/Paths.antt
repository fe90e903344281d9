-- ===== src/Execution/Sound/Paths.antt =====
-- crates/procnote-core/src/execution/engine.rs: lemmas on the paths of a batch of attachments.
use procnote.Prelude.{
  String, ◌==◌, eq_iff, false, ◌||◌, ◌≡◌, refl, none, List, [], ◌∷◌, ◌++◌, any, arith, zero, suc, ℕ,
  erase_idx,
}
use procnote.Event.{Timestamp, AttachmentRecord}
use procnote.Execution.State.{RecordedAttachment, from_record_at}
use procnote.Execution.Attachments.{duplicate_attachment_path, stored_duplicate}
use procnote.Execution.Sound.{DistinctPaths, has_path}
use procnote.Execution.Relation.{recorded}

has_path-recorded :
    (at : Timestamp) (path : String) (rs : List AttachmentRecord)
    → has_path path (recorded at rs) ≡ any rs (λ r. r.path == path)
unfolding from_record_at
has_path-recorded at path [] = refl
has_path-recorded at path (r ∷ rs) = ground (arith, has_path-recorded at path rs)

has_path-append :
    (path : String) (xs ys : List RecordedAttachment)
    → has_path path (xs ++ ys) ≡ (has_path path xs || has_path path ys)
has_path-append path [] ys = refl
has_path-append path (x ∷ xs) ys = ground (arith, has_path-append path xs ys)

distinct_of_no_duplicate :
    (at : Timestamp) (rs : List AttachmentRecord)
    → duplicate_attachment_path rs ≡ none
    → DistinctPaths (recorded at rs)
unfolding duplicate_attachment_path from_record_at
distinct_of_no_duplicate at [] h = tt
distinct_of_no_duplicate at (r ∷ rs) h =
    (ground (arith, has_path-recorded at r.path rs), distinct_of_no_duplicate at rs (ground arith))

-- No new path is that of the first stored file, and none is that of a later one.
stored_duplicate_head :
    (at : Timestamp) (x : RecordedAttachment) (xs : List RecordedAttachment)
    (rs : List AttachmentRecord)
    → stored_duplicate (x ∷ xs) rs ≡ none
    → (has_path x.path (recorded at rs) ≡ false) × (stored_duplicate xs rs ≡ none)
unfolding stored_duplicate from_record_at
stored_duplicate_head at x xs [] h = (refl, refl)
stored_duplicate_head at x xs (r ∷ rs) h =
    ground (arith, stored_duplicate_head at x xs rs, eq_iff x.path r.path, eq_iff r.path x.path)

-- The paths of an input and of a batch that passes both checks are distinct.
pub DistinctPaths-add :
    (at : Timestamp) (files : List RecordedAttachment) (rs : List AttachmentRecord)
    → DistinctPaths files
    → duplicate_attachment_path rs ≡ none
    → stored_duplicate files rs ≡ none
    → DistinctPaths (files ++ recorded at rs)
DistinctPaths-add at [] rs h new fresh = distinct_of_no_duplicate at rs new
DistinctPaths-add at (x ∷ xs) rs h new fresh =
    let (other, later) = stored_duplicate_head at x xs rs fresh in
    (
      ground (arith, has_path-append x.path xs (recorded at rs)),
      DistinctPaths-add at xs rs h.1 new later,
    )

pub stored_duplicate-nil : (rs : List AttachmentRecord) → stored_duplicate [] rs ≡ none
unfolding stored_duplicate
stored_duplicate-nil [] = refl
stored_duplicate-nil (r ∷ rs) = ground (arith, stored_duplicate-nil rs)

has_path-erase_idx :
    (path : String) (files : List RecordedAttachment) (index : ℕ)
    → has_path path files ≡ false
    → has_path path (erase_idx files index) ≡ false
has_path-erase_idx path [] index h = refl
has_path-erase_idx path (x ∷ xs) zero h = ground arith
has_path-erase_idx path (x ∷ xs) (suc i) h = ground (arith, has_path-erase_idx path xs i)

pub DistinctPaths-erase_idx :
    (files : List RecordedAttachment) (index : ℕ)
    → DistinctPaths files
    → DistinctPaths (erase_idx files index)
DistinctPaths-erase_idx [] index h = tt
DistinctPaths-erase_idx (x ∷ xs) zero h = h.1
DistinctPaths-erase_idx (x ∷ xs) (suc i) h =
    (has_path-erase_idx x.path xs i h.0, DistinctPaths-erase_idx xs i h.1)
