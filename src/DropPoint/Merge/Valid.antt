-- ===== src/DropPoint/Merge/Valid.antt =====
-- src-tauri/src/drop_point/session.rs: valid states, and that a merge of two is one.
use procnote.Prelude.{
  String, ◌≡◌, refl, sym, ◌∙◌, subst, subst₂, some, Result, ok, err, Keyed, nat_eq,
}
use procnote.DropPoint.Session.{
  PathBuf, SubmissionState, SessionPhase, waiting, close_pending, complete, ActiveDropPointSession,
  session_state_version,
}
use procnote.DropPoint.Urls.{Url, parsed_base_url}
use procnote.DropPoint.Validate.{validate_fixed, validate_phase, validate_resumable, validate}
use procnote.DropPoint.Checks.{try_all, ensure, check_submissions}
use procnote.DropPoint.Links.{Libraries, validate_session_id}
use procnote.DropPoint.Merge.{merge_transition}
use procnote.DropPoint.Merge.Progress.{merge_transition-cases}
use procnote.DropPoint.Merge.Good.{
  try_all-cons, cons-try_all, merge_submissions-AllGood, check_submissions-AllGood,
  AllGood-check_submissions,
}

-- What a reading checks of a stored state.
abbrev pub IsValid : Libraries → PathBuf → ActiveDropPointSession → Type 0
IsValid lib root s = validate lib root s ≡ ok tt

module _ (lib : Libraries) (root : PathBuf) where
  unfoldable pub phase_check : ActiveDropPointSession → Result String (Unit {0})
  phase_check s = validate_phase lib s.phase s (parsed_base_url (lib.parse_url s.base_url))

  pub IsValid-cases :
      (s : ActiveDropPointSession)
      → IsValid lib root s
      → (validate_fixed lib root s ≡ ok tt)
        × (phase_check s ≡ ok tt)
        × (check_submissions s.execution_dir s.drop_point_id s.submissions ≡ ok tt)
  unfolding validate phase_check
  IsValid-cases s h =
      let (a, h) = try_all-cons (validate_fixed lib root s) _ h in
      let (b, h) = try_all-cons (phase_check s) _ h in
      let (c, h) =
        try_all-cons (check_submissions s.execution_dir s.drop_point_id s.submissions) _ h in
      (a, b, c)

  pub cases-IsValid :
      (s : ActiveDropPointSession)
      → validate_fixed lib root s ≡ ok tt
      → phase_check s ≡ ok tt
      → check_submissions s.execution_dir s.drop_point_id s.submissions ≡ ok tt
      → IsValid lib root s
  unfolding validate phase_check try_all
  cases-IsValid s a b c = cons-try_all (validate_fixed lib root s) _ a (
      cons-try_all (phase_check s) _ b
        (cons-try_all (check_submissions s.execution_dir s.drop_point_id s.submissions) _ c refl))

  pub IsValid-session_id :
      (s : ActiveDropPointSession)
      → IsValid lib root s
      → validate_session_id lib s.session_id ≡ ok tt
  unfolding validate_fixed
  IsValid-session_id s h =
      let (_, h) =
        try_all-cons
          (ensure (nat_eq s.version session_state_version)
            "unsupported DropPoint private-state version")
          _ (IsValid-cases s h).0 in
      (try_all-cons (validate_session_id lib s.session_id) _ h).0

  -- The check of the phase does not look at the submissions.
  pub phase_check-submissions :
      (p : ActiveDropPointSession) (m : Keyed SubmissionState)
      → phase_check (record p { submissions = m }) ≡ phase_check p
  unfolding phase_check validate_phase
  phase_check-submissions p m = go p.phase (parsed_base_url (lib.parse_url p.base_url))
    where
      resumable :
          (url : Result String Url)
          → validate_resumable lib (record p { submissions = m }) url ≡ validate_resumable lib p url
      resumable (ok url) = refl
      resumable (err e) = refl

      go :
          (phase : SessionPhase) (url : Result String Url)
          → validate_phase lib phase (record p { submissions = m }) url
            ≡ validate_phase lib phase p url
      go waiting url = resumable url
      go close_pending url = resumable url
      go (complete outcome) url = refl

  -- The merge of two valid states is valid.
  pub merge_transition-IsValid :
      (s p merged : ActiveDropPointSession)
      → IsValid lib root s
      → IsValid lib root p
      → merge_transition s p ≡ ok (some merged)
      → IsValid lib root merged
  unfolding validate_fixed
  merge_transition-IsValid s p merged hs hp h =
      let (m, q, _, e, same, _) = merge_transition-cases s p merged h in
      let (_, _, good_s) = IsValid-cases s hs in
      let (fixed, phase, good_p) = IsValid-cases p hp in
      let (_, _, _, _, dir, drop) = same in
      let good : check_submissions p.execution_dir p.drop_point_id s.submissions ≡ ok tt =
        subst₂ (λ d i. check_submissions d i s.submissions ≡ ok tt) (sym dir) (sym drop) good_s in
      let merged_good = AllGood-check_submissions p.execution_dir p.drop_point_id m (
        merge_submissions-AllGood p.execution_dir p.drop_point_id s.submissions p.submissions m
          (check_submissions-AllGood p.execution_dir p.drop_point_id s.submissions good)
          (check_submissions-AllGood p.execution_dir p.drop_point_id p.submissions good_p) q) in
      subst (IsValid lib root) e (
        cases-IsValid (record p { submissions = m }) fixed (phase_check-submissions p m ∙ phase)
          merged_good)
