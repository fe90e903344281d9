-- ===== src/DropPoint/Sessions/Reads.antt =====
-- src-tauri/src/drop_point/session.rs: the states that are written pass the checks of the next reading.
use procnote.Prelude.{
  String, ◌==◌, ◌≡◌, refl, subst, inl, inr, arith, Option, none, some, List, [], ◌∷◌, Result, ok,
  err, get, insert, get-insert, is_some, eq_iff, Bool-cases,
}
use procnote.DropPoint.Session.{PathBuf, ActiveDropPointSession}
use procnote.DropPoint.Validate.{validate}
use procnote.DropPoint.Links.{Libraries, validate_session_id}
use procnote.DropPoint.Merge.{merge_transition}
use procnote.DropPoint.Sessions.{
  StateFiles, valid_or, read_file, read_named, read_session, insert_valid, insert_session,
  persist_merged, persist_over, persist_valid, persist, Call, inserted, persisted, after_call,
  after_calls,
}
use procnote.DropPoint.Sessions.Follows.{read_session-stored}
use procnote.DropPoint.Merge.Valid.{IsValid, IsValid-session_id, merge_transition-IsValid}

-- Each file can be read.
abbrev pub ReadsBack : Libraries → PathBuf → String → StateFiles → Type 0
ReadsBack lib root missing files =
    (id : String) (s : ActiveDropPointSession)
    → get id files ≡ some s
    → read_session lib root missing id files ≡ ok s

module _ (lib : Libraries) (root : PathBuf) (missing : String) where
  stored-read_session :
      (id : String) (s : ActiveDropPointSession) (files : StateFiles)
      → validate_session_id lib id ≡ ok tt
      → IsValid lib root s
      → get id files ≡ some s
      → read_session lib root missing id files ≡ ok s
  unfolding read_session read_named read_file valid_or
  stored-read_session id s files a b h = simp (a, h, b)

  read_session-name :
      (id : String) (s : ActiveDropPointSession) (files : StateFiles)
      → read_session lib root missing id files ≡ ok s
      → validate_session_id lib id ≡ ok tt
  unfolding read_session read_named
  read_session-name id s files h = go (validate_session_id lib id) h
    where
      go :
          (r : Result String (Unit {0})) → read_named lib root missing r id files ≡ ok s → r ≡ ok tt
      go (ok tt) h = refl
      go (err e) h = cc

  -- Writing a valid state under its own ID leaves a store that can be read.
  insert-ReadsBack :
      (s : ActiveDropPointSession) (files : StateFiles)
      → IsValid lib root s
      → ReadsBack lib root missing files
      → (id : String) → validate_session_id lib id ≡ ok tt
      → ReadsBack lib root missing (insert id s files)
  insert-ReadsBack s files valid reads id name j t h = elim (Bool-cases (id == j)) [
    | inl same ↦
        let e : s ≡ t = ground (arith, get-insert id j s files) in
        stored-read_session j t (insert id s files)
          (subst (λ i. validate_session_id lib i ≡ ok tt) ((eq_iff id j).0 same) name)
          (subst (IsValid lib root) e valid) h
    | inr other ↦
        let k : get j files ≡ some t = ground (arith, get-insert id j s files) in
        let read = reads j t k in
        stored-read_session j t (insert id s files) (read_session-name j t files read)
          (read_session-stored lib root missing j files t read).1 h
  ]

  insert_session-ReadsBack :
      (s : ActiveDropPointSession) (files : StateFiles)
      → ReadsBack lib root missing files
      → ReadsBack lib root missing (insert_session lib root missing s files).1
  unfolding insert_session insert_valid
  insert_session-ReadsBack s files reads = go (validate lib root s) refl
    where
      go :
          (r : Result String (Unit {0}))
          → validate lib root s ≡ r
          → ReadsBack lib root missing (insert_valid lib root missing r s files).1
      go (err e) h = reads
      go (ok tt) h = elim (Bool-cases (is_some (get s.session_id files))) [
        | inl there ↦ rw there reads
        | inr absent ↦
            rw absent
              (insert-ReadsBack s files h reads s.session_id (IsValid-session_id lib root s h))
      ]

  persist_over-ReadsBack :
      (r : Result String ActiveDropPointSession) (s : ActiveDropPointSession) (files : StateFiles)
      → IsValid lib root s
      → ((t : ActiveDropPointSession) → r ≡ ok t → IsValid lib root t)
      → ReadsBack lib root missing files
      → ReadsBack lib root missing (persist_over lib root missing r s files).1
  unfolding persist_over persist_merged
  persist_over-ReadsBack (err e) s files valid read reads = reads
  persist_over-ReadsBack (ok t) s files valid read reads = go (merge_transition t s) refl
    where
      go :
          (r : Result String (Option ActiveDropPointSession))
          → merge_transition t s ≡ r
          → ReadsBack lib root missing (persist_merged lib root missing r s.session_id files).1
      go (err e) h = reads
      go (ok none) h = reads
      go (ok (some merged)) h =
          insert-ReadsBack merged files
            (merge_transition-IsValid lib root t s merged (read t refl) valid h) reads s.session_id
            (IsValid-session_id lib root s valid)

  persist-ReadsBack :
      (s : ActiveDropPointSession) (files : StateFiles)
      → ReadsBack lib root missing files
      → ReadsBack lib root missing (persist lib root missing s files).1
  unfolding persist persist_valid
  persist-ReadsBack s files reads = go (validate lib root s) refl
    where
      go :
          (r : Result String (Unit {0}))
          → validate lib root s ≡ r
          → ReadsBack lib root missing (persist_valid lib root missing r s files).1
      go (err e) h = reads
      go (ok tt) h =
          persist_over-ReadsBack (read_session lib root missing s.session_id files) s files h
            (λ t q. (read_session-stored lib root missing s.session_id files t q).1) reads

  after_call-ReadsBack :
      (call : Call) (files : StateFiles)
      → ReadsBack lib root missing files
      → ReadsBack lib root missing (after_call lib root missing call files)
  unfolding after_call
  after_call-ReadsBack (inserted s) files reads = insert_session-ReadsBack s files reads
  after_call-ReadsBack (persisted s) files reads = persist-ReadsBack s files reads

  -- If each stored state can be read, so can each after any calls that write states, accepted and
  -- refused ones: a merge of a stored state with a proposed one passes all checks of the next reading.
  pub after_calls-ReadsBack :
      (calls : List Call) (files : StateFiles)
      → ReadsBack lib root missing files
      → ReadsBack lib root missing (after_calls lib root missing calls files)
  unfolding after_calls
  after_calls-ReadsBack [] files reads = reads
  after_calls-ReadsBack (call ∷ calls) files reads =
      after_calls-ReadsBack calls (after_call lib root missing call files)
        (after_call-ReadsBack call files reads)
