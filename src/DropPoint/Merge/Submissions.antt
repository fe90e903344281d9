-- ===== src/DropPoint/Merge/Submissions.antt =====
-- src-tauri/src/drop_point/session.rs: what the merge of the submissions keeps of the stored and of the
-- proposed ones.
use procnote.Prelude.{
  String, ◌==◌, ◌≡◌, refl, ◌∙◌, inl, inr, arith, true, ◌||◌, Option, none, some, [], ◌∷◌, Result,
  ok, err, Keyed, get, insert, get-insert, if◌then◌else◌, eq_iff, Bool-cases, ap, subst,
  or_true_left, or_true_right, and_left, and_right,
}
use procnote.DropPoint.Session.{PathBuf, InstalledBundleState, SubmissionState}
use procnote.DropPoint.Checks.{path_eq, on_ok}
use procnote.DropPoint.Merge.{bundle_eq, merged_submission, merge_submissions}
use procnote.DropPoint.Merge.Follows.{
  KeepsSubmission, KeepsSubmissions, KeepsSubmission-refl, KeepsSubmission-trans,
  KeepsSubmissions-refl, KeepsSubmissions-trans,
}

pub path_eq_sound : (p q : PathBuf) → path_eq p q ≡ true → p ≡ q
unfolding path_eq
path_eq_sound [] [] h = refl
path_eq_sound [] (y ∷ q) h = cc
path_eq_sound (x ∷ p) [] h = cc
path_eq_sound (x ∷ p) (y ∷ q) h = ground (arith, eq_iff x y, path_eq_sound p q)

-- The submission that is written when the stored and the proposed one have the same bundle.
unfoldable pub joined : SubmissionState → SubmissionState → SubmissionState
joined new old = record {
  bundle = new.bundle;
  recorded = new.recorded || old.recorded;
  acknowledged = new.acknowledged || old.acknowledged;
}

pub merged_submission-cases :
    (new old x : SubmissionState)
    → merged_submission (some new) old ≡ ok x
    → (bundle_eq new.bundle old.bundle ≡ true) × (joined new old ≡ x)
unfolding merged_submission joined
merged_submission-cases new old x h = elim (Bool-cases (bundle_eq new.bundle old.bundle)) [
  | inl same ↦ (same, cc)
  | inr other ↦ cc
]

bundle_eq_sound :
    (a b : InstalledBundleState)
    → bundle_eq a b ≡ true
    → (a.identity ≡ b.identity) × (a.path ≡ b.path)
unfolding bundle_eq
bundle_eq_sound a b h = (
  (eq_iff a.identity b.identity).0 (and_left (a.identity == b.identity) (path_eq a.path b.path) h),
  path_eq_sound a.path b.path (and_right (a.identity == b.identity) (path_eq a.path b.path) h),
)

merged_submission-Keeps_old :
    (o : Option SubmissionState) (old x : SubmissionState)
    → merged_submission o old ≡ ok x
    → KeepsSubmission old x
unfolding merged_submission joined
merged_submission-Keeps_old none old x h =
    let e : old ≡ x = cc in subst (KeepsSubmission old) e (KeepsSubmission-refl old)
merged_submission-Keeps_old (some new) old x h =
    let (same, e) = merged_submission-cases new old x h in
    let (i, p) = bundle_eq_sound new.bundle old.bundle same in
    subst (KeepsSubmission old) e (
      i,
      p,
      or_true_right new.recorded old.recorded,
      or_true_right new.acknowledged old.acknowledged,
    )

merged_submission-Keeps_new :
    (new old x : SubmissionState) → merged_submission (some new) old ≡ ok x → KeepsSubmission new x
unfolding joined
merged_submission-Keeps_new new old x h =
    subst (KeepsSubmission new) (merged_submission-cases new old x h).1 (
      refl,
      refl,
      or_true_left new.recorded old.recorded,
      or_true_left new.acknowledged old.acknowledged,
    )

insert-KeepsSubmissions :
    (id : String) (old x : SubmissionState) (m : Keyed SubmissionState)
    → merged_submission (get id m) old ≡ ok x
    → KeepsSubmissions m (insert id x m)
insert-KeepsSubmissions id old x m h j y k = elim (Bool-cases (id == j)) [
  | inl same ↦
      let q : get id m ≡ some y = ap (λ i. get i m) ((eq_iff id j).0 same) ∙ k in
      (
        x,
        get-insert id j x m ∙ ap (λ b. if b then some x else get j m) same,
        merged_submission-Keeps_new y old x (subst (λ o. merged_submission o old ≡ ok x) q h),
      )
  | inr other ↦ (
    y,
    get-insert id j x m ∙ ap (λ b. if b then some x else get j m) other ∙ k,
    KeepsSubmission-refl y,
  )
]

pub on_ok-ok :
    {A B : Type 0} (r : Result String A) (f : A → Result String B) (b : B)
    → on_ok r f ≡ ok b
    → (a : A) × (r ≡ ok a) × (f a ≡ ok b)
unfolding on_ok
on_ok-ok (ok a) f b h = (a, refl, h)
on_ok-ok (err e) f b h = cc

pub merge_submissions-step :
    (id : String) (old : SubmissionState) (rest m m' : Keyed SubmissionState)
    → merge_submissions ((id, old) ∷ rest) m ≡ ok m'
    → (x : SubmissionState) × (merged_submission (get id m) old ≡ ok x)
      × (merge_submissions rest (insert id x m) ≡ ok m')
unfolding merge_submissions
merge_submissions-step id old rest m m' h =
    on_ok-ok (merged_submission (get id m) old) (λ x. merge_submissions rest (insert id x m)) m' h

-- What has been merged is kept to the end.
merge_submissions-Keeps :
    (olds m m' : Keyed SubmissionState) → merge_submissions olds m ≡ ok m' → KeepsSubmissions m m'
unfolding merge_submissions
merge_submissions-Keeps [] m m' h =
    let e : m ≡ m' = cc in subst (KeepsSubmissions m) e (KeepsSubmissions-refl m)
merge_submissions-Keeps ((id, old) ∷ rest) m m' h =
    let (x, q, h') = merge_submissions-step id old rest m m' h in
    KeepsSubmissions-trans m (insert id x m) m' (insert-KeepsSubmissions id old x m q)
      (merge_submissions-Keeps rest (insert id x m) m' h')

-- Each stored submission is in the merged ones.
pub merge_submissions-Keeps_old :
    (olds m m' : Keyed SubmissionState)
    → merge_submissions olds m ≡ ok m'
    → KeepsSubmissions olds m'
unfolding get
merge_submissions-Keeps_old [] m m' h j y k = cc
merge_submissions-Keeps_old ((id, old) ∷ rest) m m' h j y k =
    let (x, q, h') = merge_submissions-step id old rest m m' h in
    elim (Bool-cases (id == j)) [
      | inl same ↦
          let here : get j (insert id x m) ≡ some x =
            get-insert id j x m ∙ ap (λ b. if b then some x else get j m) same in
          let (z, there, kept) = merge_submissions-Keeps rest (insert id x m) m' h' j x here in
          let e : old ≡ y = ground arith in
          (
            z,
            there,
            KeepsSubmission-trans y x z
                (subst (λ o. KeepsSubmission o x) e
                  (merged_submission-Keeps_old (get id m) old x q))
                kept,
          )
      | inr other ↦ merge_submissions-Keeps_old rest (insert id x m) m' h' j y (rw other at k)
    ]
