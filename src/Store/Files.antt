-- ===== src/Store/Files.antt =====
-- crates/procnote-app/src/persistence/attachment_store.rs: the attachment files of an execution, by
-- their stored paths. `sha256_hex` is the digest in hexadecimal, `read_source` reads a staged source or
-- gives the text of the error, and `show_path` prints a stored path below the directory of the execution.
use procnote.Prelude.{
  ℕ, String, ◌==◌, ◌≡◌, refl, Option, none, some, List, [], ◌∷◌, arith, Result, ok, err, Exec, pure,
  ◌>>◌, All, Keyed, get, insert, get-insert, append, if◌then◌else◌, eq_iff, continue,
}
use procnote.App.Repository.{StagedFile}

-- The bytes of each file.
abbrev pub Files : Type 0
Files = Keyed (List ℕ)

-- The stored content of the file is the one of its record.
abbrev pub IsStoredFile : (List ℕ → String) → Files → StagedFile → Type 0
IsStoredFile sha256_hex files f =
    (content : List ℕ) × (get f.file.path files ≡ some content)
    × (sha256_hex content ≡ f.file.sha256)

-- Nothing that is stored is lost or overwritten.
abbrev pub Keeps : Files → Files → Type 0
Keeps files files' =
    (path : String) (content : List ℕ)
    → get path files ≡ some content
    → get path files' ≡ some content

module _ (sha256_hex : List ℕ → String) (read_source : String → Result String (List ℕ))
    (show_path : String → String) where
  -- What `write_pending_source` answers once it has copied the source.
  unfoldable pub check_copied : String → List ℕ → Result String (Unit {0})
  check_copied expected content =
      if sha256_hex content == expected
      then ok tt
      else err (
          append "attachment hash mismatch while copying: expected "
            (append expected (append ", got " (sha256_hex content))))

  -- The destination is created before the source is opened, and stays when the copy fails.
  unfoldable pub write_pending_source :
      StagedFile → Result String (List ℕ) → Exec String Files (Unit {0})
  unfolding check_copied
  write_pending_source f (err e) files = (err e, insert f.file.path [] files)
  write_pending_source f (ok content) files =
      (check_copied f.file.sha256 content, insert f.file.path content files)

  unfoldable pub check_existing : StagedFile → List ℕ → Result String (Unit {0})
  check_existing f existing =
      if sha256_hex existing == f.file.sha256
      then ok tt
      else err (append "attachment hash-prefix collision at " (show_path f.file.path))

  unfoldable pub store_at : StagedFile → Option (List ℕ) → Exec String Files (Unit {0})
  unfolding write_pending_source check_existing
  store_at f (some existing) files = (check_existing f existing, files)
  store_at f none files = write_pending_source f (read_source f.source) files

  unfoldable pub store : StagedFile → Exec String Files (Unit {0})
  unfolding store_at
  store f files = store_at f (get f.file.path files) files

  -- `try_for_each(|file| attachments.store(file))`
  unfoldable pub store_all : List StagedFile → Exec String Files (Unit {0})
  store_all [] = pure tt
  store_all (f ∷ fs) = store f >> store_all fs

  insert-Keeps :
      (path : String) (content : List ℕ) (files : Files)
      → get path files ≡ none
      → Keeps files (insert path content files)
  insert-Keeps path content files absent p c h =
      ground (arith, get-insert path p content files, eq_iff path p)

  write_pending_source-Keeps :
      (f : StagedFile) (source : Result String (List ℕ)) (files : Files)
      → get f.file.path files ≡ none
      → Keeps files (write_pending_source f source files).1
  unfolding write_pending_source
  write_pending_source-Keeps f (err e) files absent = insert-Keeps f.file.path [] files absent
  write_pending_source-Keeps f (ok content) files absent =
      insert-Keeps f.file.path content files absent

  store_at-Keeps :
      (f : StagedFile) (found : Option (List ℕ)) (files : Files)
      → get f.file.path files ≡ found
      → Keeps files (store_at f found files).1
  unfolding store_at
  store_at-Keeps f (some existing) files e p c h = h
  store_at-Keeps f none files e p c h =
      write_pending_source-Keeps f (read_source f.source) files e p c h

  pub store-Keeps : (f : StagedFile) (files : Files) → Keeps files (store f files).1
  unfolding store
  store-Keeps f files = store_at-Keeps f (get f.file.path files) files refl

  write_pending_source-ok :
      (f : StagedFile) (source : Result String (List ℕ)) (files : Files)
      → (write_pending_source f source files).0 ≡ ok tt
      → IsStoredFile sha256_hex (write_pending_source f source files).1 f
  unfolding write_pending_source check_copied
  write_pending_source-ok f (err e) files h = cc
  write_pending_source-ok f (ok content) files h = (
    content,
    ground
        (arith, get-insert f.file.path f.file.path content files, eq_iff f.file.path f.file.path),
    ground (arith, eq_iff (sha256_hex content) f.file.sha256),
  )

  store_at-ok :
      (f : StagedFile) (found : Option (List ℕ)) (files : Files)
      → get f.file.path files ≡ found
      → (store_at f found files).0 ≡ ok tt
      → IsStoredFile sha256_hex (store_at f found files).1 f
  unfolding store_at check_existing
  store_at-ok f (some existing) files e h =
      (existing, e, ground (arith, eq_iff (sha256_hex existing) f.file.sha256))
  store_at-ok f none files e h = write_pending_source-ok f (read_source f.source) files h

  store-ok :
      (f : StagedFile) (files : Files)
      → (store f files).0 ≡ ok tt
      → IsStoredFile sha256_hex (store f files).1 f
  unfolding store
  store-ok f files h = store_at-ok f (get f.file.path files) files refl h

  pub store_all-Keeps : (fs : List StagedFile) (files : Files) → Keeps files (store_all fs files).1
  unfolding store_all
  store_all-Keeps [] files p c h = h
  store_all-Keeps (f ∷ fs) files p c h =
      next (store f files).0 (store-Keeps f files p c h) (store_all-Keeps fs (store f files).1 p c)
    where
      next :
          (r : Result String (Unit {0}))
          → get p (store f files).1 ≡ some c
          → (get p (store f files).1 ≡ some c → get p (store_all fs (store f files).1).1 ≡ some c)
          → get p (continue r (λ _. store_all fs) (store f files).1).1 ≡ some c
      next (ok _) kept rest = rest kept
      next (err e) kept rest = kept

  IsStoredFile-later :
      (f : StagedFile) (files files' : Files)
      → Keeps files files'
      → IsStoredFile sha256_hex files f
      → IsStoredFile sha256_hex files' f
  IsStoredFile-later f files files' keeps (content, there, same) =
      (content, keeps f.file.path content there, same)

  -- Where the files of a decision are stored without an error, each of them has the content that its
  -- record describes.
  pub store_all-ok :
      (fs : List StagedFile) (files : Files)
      → (store_all fs files).0 ≡ ok tt
      → All (IsStoredFile sha256_hex (store_all fs files).1) fs
  unfolding store_all
  store_all-ok [] files h = tt
  store_all-ok (f ∷ fs) files h = next (store f files).0 refl (store_all-ok fs (store f files).1) h
    where
      next :
          (r : Result String (Unit {0}))
          → (store f files).0 ≡ r
          → ((store_all fs (store f files).1).0 ≡ ok tt
              → All (IsStoredFile sha256_hex (store_all fs (store f files).1).1) fs)
          → (continue r (λ _. store_all fs) (store f files).1).0 ≡ ok tt
          → All
              (IsStoredFile sha256_hex (continue r (λ _. store_all fs) (store f files).1).1)
              (f ∷ fs)
      next (ok _) e rest h = (
        IsStoredFile-later f (store f files).1 (store_all fs (store f files).1).1
            (store_all-Keeps fs (store f files).1) (store-ok f files e),
        rest h,
      )
      next (err x) e rest h = cc
