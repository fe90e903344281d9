-- ===== src/DropPoint/Merge/Good.antt =====
-- src-tauri/src/drop_point/session.rs: the checks of the submissions, and that a merge passes them.
use procnote.Prelude.{
  String, ◌≡◌, refl, subst, arith, Bool, true, false, not, ◌&&◌, ◌||◌, Option, none, some, List, [],
  ◌∷◌, Result, ok, err, Keyed, get, insert, AllEntries, AllEntries-get, AllEntries-insert,
}
use procnote.DropPoint.Session.{PathBuf, InstalledBundleState, SubmissionState}
use procnote.DropPoint.Checks.{
  try_all, on_ok, ensure, validate_prefixed_value, validate_identity, is_absolute, path_eq,
  bundle_path, check_submission, check_submissions,
}
use procnote.DropPoint.Merge.{merged_submission, merge_submissions}
use procnote.DropPoint.Merge.Submissions.{
  joined, merged_submission-cases, merge_submissions-step, on_ok-ok,
}

pub try_all-cons :
    (r : Result String (Unit {0})) (rs : List (Result String (Unit {0})))
    → try_all (r ∷ rs) ≡ ok tt
    → (r ≡ ok tt) × (try_all rs ≡ ok tt)
unfolding try_all
try_all-cons (ok tt) rs h = (refl, h)
try_all-cons (err e) rs h = cc

pub cons-try_all :
    (r : Result String (Unit {0})) (rs : List (Result String (Unit {0})))
    → r ≡ ok tt
    → try_all rs ≡ ok tt
    → try_all (r ∷ rs) ≡ ok tt
unfolding try_all
cons-try_all (ok tt) rs h k = k
cons-try_all (err e) rs h k = cc

module _ (execution_dir : PathBuf) (drop_point_id : String) where
  unfoldable pub IsGood : String → SubmissionState → Type 0
  IsGood id x = check_submission execution_dir drop_point_id id x ≡ ok tt

  unfoldable pub bundle_check : String → InstalledBundleState → Result String (Unit {0})
  bundle_check id bundle =
      ensure
        (is_absolute bundle.path
          && path_eq bundle.path (bundle_path execution_dir drop_point_id id))
        "installed DropPoint bundle path is outside its deterministic destination"

  unfoldable pub marks_check : Bool → Bool → Result String (Unit {0})
  marks_check recorded acknowledged =
      ensure (not (acknowledged && not recorded))
        "acknowledged DropPoint submission is not recorded"

  pub IsGood-cases :
      (id : String) (x : SubmissionState)
      → IsGood id x
      → (validate_prefixed_value id "sub_" ≡ ok tt)
        × (marks_check x.recorded x.acknowledged ≡ ok tt)
        × (validate_identity x.bundle.identity ≡ ok tt)
        × (bundle_check id x.bundle ≡ ok tt)
  unfolding IsGood check_submission bundle_check marks_check
  IsGood-cases id x h =
      let (a, h) = try_all-cons (validate_prefixed_value id "sub_") _ h in
      let (b, h) = try_all-cons (marks_check x.recorded x.acknowledged) _ h in
      let (c, h) = try_all-cons (validate_identity x.bundle.identity) _ h in
      let (d, h) = try_all-cons (bundle_check id x.bundle) _ h in (a, b, c, d)

  marks_joined :
      (r a r' a' : Bool)
      → marks_check r a ≡ ok tt
      → marks_check r' a' ≡ ok tt
      → marks_check (r || r') (a || a') ≡ ok tt
  unfolding marks_check
  marks_joined true a r' a' h k = ground arith
  marks_joined false true r' a' h k = cc
  marks_joined false false r' a' h k = k

  joined-IsGood :
      (id : String) (new old : SubmissionState)
      → IsGood id new
      → IsGood id old
      → IsGood id (joined new old)
  unfolding IsGood check_submission joined bundle_check marks_check try_all
  joined-IsGood id new old h k =
      let (a, b, c, d) = IsGood-cases id new h in
      let (_, b', _, _) = IsGood-cases id old k in
      cons-try_all (validate_prefixed_value id "sub_") _ a (
        cons-try_all
          (marks_check (new.recorded || old.recorded) (new.acknowledged || old.acknowledged)) _
          (marks_joined new.recorded new.acknowledged old.recorded old.acknowledged b b')
          (cons-try_all (validate_identity new.bundle.identity) _ c
            (cons-try_all (bundle_check id new.bundle) _ d refl)))

  merged_submission-IsGood :
      (id : String) (m : Keyed SubmissionState) (old x : SubmissionState)
      → AllEntries IsGood m
      → IsGood id old
      → merged_submission (get id m) old ≡ ok x
      → IsGood id x
  unfolding joined merged_submission
  merged_submission-IsGood id m old x good k = go (get id m) refl
    where
      go :
          (o : Option SubmissionState) → get id m ≡ o → merged_submission o old ≡ ok x → IsGood id x
      go none e h = let q : old ≡ x = cc in subst (IsGood id) q k
      go (some new) e h =
          subst (IsGood id) (merged_submission-cases new old x h).1
            (joined-IsGood id new old (AllEntries-get IsGood id new m good e) k)

  pub merge_submissions-AllGood :
      (olds m m' : Keyed SubmissionState)
      → AllEntries IsGood olds
      → AllEntries IsGood m
      → merge_submissions olds m ≡ ok m'
      → AllEntries IsGood m'
  unfolding merge_submissions
  merge_submissions-AllGood [] m m' k good h =
      let q : m ≡ m' = cc in subst (AllEntries IsGood) q good
  merge_submissions-AllGood ((id, old) ∷ rest) m m' k good h =
      let (x, q, h') = merge_submissions-step id old rest m m' h in
      merge_submissions-AllGood rest (insert id x m) m' k.1
        (AllEntries-insert IsGood id x m good (merged_submission-IsGood id m old x good k.0 q)) h'

  pub check_submissions-AllGood :
      (m : Keyed SubmissionState)
      → check_submissions execution_dir drop_point_id m ≡ ok tt
      → AllEntries IsGood m
  unfolding check_submissions IsGood
  check_submissions-AllGood [] h = tt
  check_submissions-AllGood ((id, x) ∷ m) h =
      let (_, a, b) =
        on_ok-ok (check_submission execution_dir drop_point_id id x)
          (λ _. check_submissions execution_dir drop_point_id m) tt h in
      (a, check_submissions-AllGood m b)

  pub AllGood-check_submissions :
      (m : Keyed SubmissionState)
      → AllEntries IsGood m
      → check_submissions execution_dir drop_point_id m ≡ ok tt
  unfolding check_submissions IsGood on_ok
  AllGood-check_submissions [] h = refl
  AllGood-check_submissions ((id, x) ∷ m) h = rw h.0 (AllGood-check_submissions m h.1)
