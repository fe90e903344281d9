-- ===== src/DropPoint/Sessions/Follows.antt =====
-- src-tauri/src/drop_point/session.rs: what becomes of the stored states under the calls that write
-- them.
use procnote.Prelude.{
  String, ◌==◌, ◌≡◌, refl, sym, ◌∙◌, ap, subst, inl, inr, arith, false, Option, none, some, List,
  [], ◌∷◌, Result, ok, err, get, insert, get-insert, is_some, if◌then◌else◌, eq_iff, Bool-cases,
}
use procnote.DropPoint.Session.{PathBuf, ActiveDropPointSession, is_resumable}
use procnote.DropPoint.Validate.{validate}
use procnote.DropPoint.Links.{Libraries, validate_session_id}
use procnote.DropPoint.Merge.{merge_transition}
use procnote.DropPoint.Merge.Progress.{merge_transition-Follows}
use procnote.DropPoint.Merge.Follows.{Follows, SameSession, Follows-refl, KeepsSubmissions-trans}
use procnote.DropPoint.Sessions.{
  StateFiles, valid_or, read_file, read_named, read_session, insert_valid, insert_session,
  persist_merged, persist_over, persist_valid, persist, Call, inserted, persisted, after_call,
  after_calls,
}

SameSession-trans :
    (s t u : ActiveDropPointSession) → SameSession s t → SameSession t u → SameSession s u
SameSession-trans s t u (a, b, c, d, e, f) (a', b', c', d', e', f') =
    (a' ∙ a, b' ∙ b, c' ∙ c, d' ∙ d, e' ∙ e, f' ∙ f)

-- A state that nothing has changed since the session was complete.
final_trans :
    (s t u : ActiveDropPointSession)
    → (is_resumable s ≡ false → t ≡ s)
    → (is_resumable t ≡ false → u ≡ t)
    → is_resumable s ≡ false
    → u ≡ s
final_trans s t u f g h = g (ap is_resumable (f h) ∙ h) ∙ f h

Follows-trans : (s t u : ActiveDropPointSession) → Follows s t → Follows t u → Follows s u
Follows-trans s t u (same, rank, kept, final) (same', rank', kept', final') = (
  SameSession-trans s t u same same',
  omega arith,
  KeepsSubmissions-trans s.submissions t.submissions u.submissions kept kept',
  final_trans s t u final final',
)

-- Each stored state is still there, as one that follows it.
abbrev AllFollow : StateFiles → StateFiles → Type 0
AllFollow files files' =
    (id : String) (s : ActiveDropPointSession)
    → get id files ≡ some s
    → (s' : ActiveDropPointSession) × (get id files' ≡ some s') × Follows s s'

AllFollow-refl : (files : StateFiles) → AllFollow files files
AllFollow-refl files id s h = (s, h, Follows-refl s)

insert-AllFollow :
    (id : String) (s' : ActiveDropPointSession) (files : StateFiles)
    → ((s : ActiveDropPointSession) → get id files ≡ some s → Follows s s')
    → AllFollow files (insert id s' files)
insert-AllFollow id s' files f j s h = elim (Bool-cases (id == j)) [
  | inl same ↦ (
    s',
    get-insert id j s' files ∙ ap (λ b. if b then some s' else get j files) same,
    f s (ap (λ i. get i files) ((eq_iff id j).0 same) ∙ h),
  )
  | inr other ↦ (
    s,
    get-insert id j s' files ∙ ap (λ b. if b then some s' else get j files) other ∙ h,
    Follows-refl s,
  )
]

module _ (lib : Libraries) (root : PathBuf) (missing : String) where
  read_file-stored :
      (o : Option ActiveDropPointSession) (s : ActiveDropPointSession)
      → read_file lib root missing o ≡ ok s
      → (o ≡ some s) × (validate lib root s ≡ ok tt)
  unfolding read_file valid_or
  read_file-stored none s h = cc
  read_file-stored (some t) s h = go (validate lib root t) refl h
    where
      go :
          (r : Result String (Unit {0}))
          → validate lib root t ≡ r
          → valid_or lib root missing r t ≡ ok s
          → (some t ≡ some s) × (validate lib root s ≡ ok tt)
      go (ok u) e h = let q : t ≡ s = cc in (ap some q, ap (validate lib root) (sym q) ∙ e)
      go (err e') e h = cc

  -- A state that is read is the one that is stored, and it is valid.
  pub read_session-stored :
      (id : String) (files : StateFiles) (s : ActiveDropPointSession)
      → read_session lib root missing id files ≡ ok s
      → (get id files ≡ some s) × (validate lib root s ≡ ok tt)
  unfolding read_session read_named
  read_session-stored id files s h = go (validate_session_id lib id) h
    where
      go :
          (r : Result String (Unit {0}))
          → read_named lib root missing r id files ≡ ok s
          → (get id files ≡ some s) × (validate lib root s ≡ ok tt)
      go (ok u) h = read_file-stored (get id files) s h
      go (err e) h = cc

  insert_session-AllFollow :
      (s : ActiveDropPointSession) (files : StateFiles)
      → AllFollow files (insert_session lib root missing s files).1
  unfolding insert_session insert_valid
  insert_session-AllFollow s files = go (validate lib root s)
    where
      go :
          (r : Result String (Unit {0}))
          → AllFollow files (insert_valid lib root missing r s files).1
      go (err e) = AllFollow-refl files
      go (ok u) = elim (Bool-cases (is_some (get s.session_id files))) [
        | inl there ↦ rw there (AllFollow-refl files)
        | inr absent ↦ rw absent (insert-AllFollow s.session_id s files (λ t h. ground arith))
      ]

  persist_over-AllFollow :
      (r : Result String ActiveDropPointSession) (s : ActiveDropPointSession) (files : StateFiles)
      → ((t : ActiveDropPointSession) → r ≡ ok t → get s.session_id files ≡ some t)
      → AllFollow files (persist_over lib root missing r s files).1
  unfolding persist_over persist_merged
  persist_over-AllFollow (err e) s files read = AllFollow-refl files
  persist_over-AllFollow (ok t) s files read = go (merge_transition t s) refl
    where
      go :
          (r : Result String (Option ActiveDropPointSession))
          → merge_transition t s ≡ r
          → AllFollow files (persist_merged lib root missing r s.session_id files).1
      go (err e) h = AllFollow-refl files
      go (ok none) h = AllFollow-refl files
      go (ok (some merged)) h = insert-AllFollow s.session_id merged files (λ u q.
          let e : t ≡ u = ground (arith, read t refl) in
          subst (λ x. Follows x merged) e (merge_transition-Follows t s merged h))

  persist-AllFollow :
      (s : ActiveDropPointSession) (files : StateFiles)
      → AllFollow files (persist lib root missing s files).1
  unfolding persist persist_valid
  persist-AllFollow s files = go (validate lib root s)
    where
      go :
          (r : Result String (Unit {0}))
          → AllFollow files (persist_valid lib root missing r s files).1
      go (err e) = AllFollow-refl files
      go (ok u) =
          persist_over-AllFollow (read_session lib root missing s.session_id files) s files
            (λ t h. (read_session-stored s.session_id files t h).0)

  after_call-AllFollow :
      (call : Call) (files : StateFiles) → AllFollow files (after_call lib root missing call files)
  unfolding after_call
  after_call-AllFollow (inserted s) files = insert_session-AllFollow s files
  after_call-AllFollow (persisted s) files = persist-AllFollow s files

  -- Through any calls that write states, accepted and refused ones, and whatever states they are given,
  -- a stored state stays: its file then holds a state of the same session, execution, input, directory
  -- and drop point, in the same or a later phase, with all its submissions under their bundles, none of
  -- which has lost its recorded or acknowledged mark; and once the session is complete the file never
  -- changes.
  pub after_calls-AllFollow :
      (calls : List Call) (files : StateFiles) (id : String) (s : ActiveDropPointSession)
      → get id files ≡ some s
      → (s' : ActiveDropPointSession) × (get id (after_calls lib root missing calls files)
          ≡ some s')
        × Follows s s'
  unfolding after_calls
  after_calls-AllFollow [] files id s h = (s, h, Follows-refl s)
  after_calls-AllFollow (call ∷ calls) files id s h =
      let (t, ht, st) = after_call-AllFollow call files id s h in
      let (u, hu, tu) =
        after_calls-AllFollow calls (after_call lib root missing call files) id t ht in
      (u, hu, Follows-trans s t u st tu)
