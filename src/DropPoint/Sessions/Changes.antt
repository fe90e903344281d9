-- ===== src/DropPoint/Sessions/Changes.antt =====
-- src-tauri/src/drop_point/session.rs: the changes that the owner of a session makes to a valid state.
use procnote.Prelude.{
  String, ◌≡◌, refl, ◌∙◌, subst, inl, inr, arith, Bool, true, not, Option, none, some, Result, ok,
  err, get, insert, Bool-cases, AllEntries-get, AllEntries-insert,
}
use procnote.DropPoint.Session.{
  PathBuf, SubmissionState, CompletionOutcome, SessionPhase, waiting, close_pending, complete,
  is_complete, ActiveDropPointSession, write_submission, recorded_submission,
  acknowledged_submission, with_submission_recorded, with_submission_acknowledged, with_complete,
  with_close_pending, is_resumable, Change, closed, recorded_as, acknowledged_as, completed,
  changed,
}
use procnote.DropPoint.Urls.{Url, parsed_base_url}
use procnote.DropPoint.Validate.{validate_fixed, validate_phase, validate_resumable}
use procnote.DropPoint.Checks.{
  try_all, validate_prefixed_value, validate_identity, check_submission,
}
use procnote.DropPoint.Links.{Libraries}
use procnote.DropPoint.Merge.Valid.{IsValid}
use procnote.DropPoint.Merge.Good.{
  cons-try_all, IsGood, IsGood-cases, bundle_check, marks_check, check_submissions-AllGood,
  AllGood-check_submissions,
}
use procnote.DropPoint.Merge.Valid.{
  IsValid-cases, cases-IsValid, phase_check, phase_check-submissions,
}

-- A change of one submission, by what it does with the one that is there.
write_submission-cases :
    (id : String) (s s' : ActiveDropPointSession) (r : Result String SubmissionState)
    → write_submission id s r ≡ ok s'
    → (x : SubmissionState) × (r ≡ ok x)
      × (record s { submissions = insert id x s.submissions } ≡ s')
unfolding write_submission
write_submission-cases id s s' (ok x) h = (x, refl, cc)
write_submission-cases id s s' (err e) h = cc

module _ (lib : Libraries) (root : PathBuf) where
  write-IsValid :
      (id : String) (x : SubmissionState) (s : ActiveDropPointSession)
      → IsValid lib root s
      → IsGood s.execution_dir s.drop_point_id id x
      → IsValid lib root (record s { submissions = insert id x s.submissions })
  unfolding validate_fixed
  write-IsValid id x s valid good =
      let (fixed, phase, subs) = IsValid-cases lib root s valid in
      let m = insert id x s.submissions in
      let all_good = AllGood-check_submissions s.execution_dir s.drop_point_id m (
        AllEntries-insert (IsGood s.execution_dir s.drop_point_id) id x s.submissions
          (check_submissions-AllGood s.execution_dir s.drop_point_id s.submissions subs) good) in
      cases-IsValid lib root (record s { submissions = m }) fixed
        (phase_check-submissions lib root s m ∙ phase) all_good

  marked-IsGood :
      (dir : PathBuf) (drop id : String) (x : SubmissionState) (r a : Bool)
      → IsGood dir drop id x
      → marks_check dir drop r a ≡ ok tt
      → IsGood dir drop id (record x { recorded = r; acknowledged = a })
  unfolding IsGood check_submission bundle_check marks_check try_all
  marked-IsGood dir drop id x r a good marks =
      let (p, _, i, b) = IsGood-cases dir drop id x good in
      cons-try_all (validate_prefixed_value id "sub_") _ p (
        cons-try_all (marks_check dir drop r a) _ marks (
          cons-try_all (validate_identity x.bundle.identity) _ i
            (cons-try_all (bundle_check dir drop id x.bundle) _ b refl)))

  stored-IsGood :
      (s : ActiveDropPointSession) (id : String) (x : SubmissionState)
      → IsValid lib root s
      → get id s.submissions ≡ some x
      → IsGood s.execution_dir s.drop_point_id id x
  stored-IsGood s id x valid h =
      let (_, _, subs) = IsValid-cases lib root s valid in
      AllEntries-get (IsGood s.execution_dir s.drop_point_id) id x s.submissions
        (check_submissions-AllGood s.execution_dir s.drop_point_id s.submissions subs) h

  recorded-IsGood :
      (s : ActiveDropPointSession) (id : String) (x : SubmissionState)
      → IsValid lib root s
      → recorded_submission (get id s.submissions) ≡ ok x
      → IsGood s.execution_dir s.drop_point_id id x
  unfolding recorded_submission marks_check
  recorded-IsGood s id x valid h = go (get id s.submissions) refl h
    where
      go :
          (o : Option SubmissionState)
          → get id s.submissions ≡ o
          → recorded_submission o ≡ ok x
          → IsGood s.execution_dir s.drop_point_id id x
      go none e h = cc
      go (some y) e h =
          let q : record y { recorded = true } ≡ x = cc in
          subst (IsGood s.execution_dir s.drop_point_id id) q (
            marked-IsGood s.execution_dir s.drop_point_id id y true y.acknowledged
              (stored-IsGood s id y valid e) (ground arith))

  acknowledged-IsGood :
      (s : ActiveDropPointSession) (id : String) (x : SubmissionState)
      → IsValid lib root s
      → acknowledged_submission (get id s.submissions) ≡ ok x
      → IsGood s.execution_dir s.drop_point_id id x
  unfolding acknowledged_submission marks_check
  acknowledged-IsGood s id x valid h = go (get id s.submissions) refl h
    where
      go :
          (o : Option SubmissionState)
          → get id s.submissions ≡ o
          → acknowledged_submission o ≡ ok x
          → IsGood s.execution_dir s.drop_point_id id x
      go none e h = cc
      go (some y) e h = elim (Bool-cases y.recorded) [
        | inr unrecorded ↦ ground arith
        | inl was ↦
            let q : record y { acknowledged = true } ≡ x = ground arith in
            subst (IsGood s.execution_dir s.drop_point_id id) q (
              marked-IsGood s.execution_dir s.drop_point_id id y y.recorded true
                (stored-IsGood s id y valid e) (ground arith))
      ]

  -- The check of a resumable state does not look at the phase.
  resumable_check :
      (s : ActiveDropPointSession)
      → phase_check lib root s ≡ ok tt
      → is_resumable s ≡ true
      → phase_check lib root (with_close_pending s) ≡ ok tt
  unfolding phase_check is_resumable is_complete validate_phase with_close_pending
  resumable_check s h ongoing = go s.phase (parsed_base_url (lib.parse_url s.base_url)) h ongoing
    where
      go :
          (phase : SessionPhase) (url : Result String Url)
          → validate_phase lib phase s url ≡ ok tt
          → not (is_complete phase) ≡ true
          → validate_resumable lib (with_close_pending s) url ≡ ok tt
      go (complete outcome) url h ongoing = cc
      go waiting (err e) h ongoing = h
      go waiting (ok url) h ongoing = h
      go close_pending (err e) h ongoing = h
      go close_pending (ok url) h ongoing = h

  rephased-IsValid :
      (s : ActiveDropPointSession)
      → IsValid lib root s
      → is_resumable s ≡ true
      → IsValid lib root (with_close_pending s)
  unfolding validate_fixed with_close_pending
  rephased-IsValid s valid ongoing =
      let (fixed, phase, subs) = IsValid-cases lib root s valid in
      cases-IsValid lib root (with_close_pending s) fixed (resumable_check s phase ongoing) subs

  completed-IsValid :
      (outcome : CompletionOutcome) (s : ActiveDropPointSession)
      → IsValid lib root s
      → IsValid lib root (with_complete outcome s)
  unfolding validate_fixed validate_phase phase_check with_complete
  completed-IsValid outcome s valid =
      let (fixed, _, subs) = IsValid-cases lib root s valid in
      cases-IsValid lib root (with_complete outcome s) fixed refl subs

  -- A change of a valid state of a session that is not complete (it is about to close, a submission is
  -- recorded or acknowledged, the session completes) gives a valid state again, where it is accepted.
  pub changed-IsValid :
      (change : Change) (s s' : ActiveDropPointSession)
      → IsValid lib root s
      → is_resumable s ≡ true
      → changed change s ≡ ok s'
      → IsValid lib root s'
  unfolding changed with_submission_recorded with_submission_acknowledged
  changed-IsValid closed s s' valid ongoing h =
      let e : with_close_pending s ≡ s' = cc in
      subst (IsValid lib root) e (rephased-IsValid s valid ongoing)
  changed-IsValid (recorded_as id) s s' valid ongoing h =
      let (x, q, e) =
        write_submission-cases id s s' (recorded_submission (get id s.submissions)) h in
      subst (IsValid lib root) e (write-IsValid id x s valid (recorded-IsGood s id x valid q))
  changed-IsValid (acknowledged_as id) s s' valid ongoing h =
      let (x, q, e) =
        write_submission-cases id s s' (acknowledged_submission (get id s.submissions)) h in
      subst (IsValid lib root) e (write-IsValid id x s valid (acknowledged-IsGood s id x valid q))
  changed-IsValid (completed outcome) s s' valid ongoing h =
      let e : with_complete outcome s ≡ s' = cc in
      subst (IsValid lib root) e (completed-IsValid outcome s valid)
