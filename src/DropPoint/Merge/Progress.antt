-- ===== src/DropPoint/Merge/Progress.antt =====
-- src-tauri/src/drop_point/session.rs: what a merged state keeps of the stored one.
use procnote.Prelude.{
  String, ◌==◌, ◌≡◌, refl, sym, ◌≤◌, inl, inr, arith, true, some, Result, ok, err, Keyed, leb,
  eq_iff, Bool-cases, nat_eq_sound, subst,
}
use procnote.DropPoint.Session.{SubmissionState, ActiveDropPointSession, is_complete, is_resumable}
use procnote.DropPoint.Merge.{
  same_session_identity, phase_rank, merge_submissions, advanced, merge_transition,
}
use procnote.DropPoint.Merge.Submissions.{path_eq_sound, merge_submissions-Keeps_old}
use procnote.DropPoint.Merge.Follows.{SameSession, Follows}

text_eq_sound : (a b : String) → (a == b) ≡ true → b ≡ a
text_eq_sound a b h = sym ((eq_iff a b).0 h)

same_session_identity-SameSession :
    (s s' : ActiveDropPointSession) → same_session_identity s s' ≡ true → SameSession s s'
unfolding same_session_identity
same_session_identity-SameSession s s' h = (
  text_eq_sound s.session_id s'.session_id (ground arith),
  sym (nat_eq_sound s.execution_id s'.execution_id (ground arith)),
  text_eq_sound s.step_id s'.step_id (ground arith),
  text_eq_sound s.input_id s'.input_id (ground arith),
  sym (path_eq_sound s.execution_dir s'.execution_dir (ground arith)),
  text_eq_sound s.drop_point_id s'.drop_point_id (ground arith),
)

advanced-cases :
    (s p merged : ActiveDropPointSession) (r : Result String (Keyed SubmissionState))
    → advanced s p r ≡ ok (some merged)
    → (m : Keyed SubmissionState) × (r ≡ ok m)
      × (phase_rank s.phase ≤ phase_rank p.phase)
      × (record p { submissions = m } ≡ merged)
unfolding advanced
advanced-cases s p merged (err e) h = cc
advanced-cases s p merged (ok m) h =
    elim (Bool-cases (leb (phase_rank s.phase) (phase_rank p.phase))) [
      | inl later ↦ (m, refl, ground arith, ground arith)
      | inr earlier ↦ ground arith
    ]

-- What a merge writes: the proposed state with the merged submissions.
pub merge_transition-cases :
    (s p merged : ActiveDropPointSession)
    → merge_transition s p ≡ ok (some merged)
    → (m : Keyed SubmissionState) × (merge_submissions s.submissions p.submissions ≡ ok m)
      × (phase_rank s.phase ≤ phase_rank p.phase)
      × (record p { submissions = m } ≡ merged)
      × SameSession s p
      × (is_resumable s ≡ true)
unfolding merge_transition is_resumable
merge_transition-cases s p merged h = elim (Bool-cases (same_session_identity s p)) [
  | inr other ↦ ground arith
  | inl same ↦ elim (Bool-cases (is_complete s.phase)) [
    | inl done ↦ ground arith
    | inr ongoing ↦
        let (m, q, later, e) =
          advanced-cases s p merged (merge_submissions s.submissions p.submissions)
            (ground arith) in
        (m, q, later, e, same_session_identity-SameSession s p same, rw ongoing refl)
  ]
]

pub merge_transition-Follows :
    (s p merged : ActiveDropPointSession)
    → merge_transition s p ≡ ok (some merged)
    → Follows s merged
merge_transition-Follows s p merged h =
    let (m, q, later, e, same, ongoing) = merge_transition-cases s p merged h in
    subst (Follows s) e
      (same, later, merge_submissions-Keeps_old s.submissions p.submissions m q, λ done. cc)
