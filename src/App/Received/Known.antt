-- ===== src/App/Received/Known.antt =====
-- crates/procnote-app/src/repository.rs: lemmas on the files that an execution has.
use procnote.Prelude.{
  String, ◌==◌, eq_refl, Bool, true, ◌||◌, ◌≡◌, sym, subst, List, [], ◌∷◌, ◌++◌, arith, any,
}
use procnote.Event.{AttachmentRecord}
use procnote.Execution.State.{ExecutionState, from_record_at}
use procnote.Execution.AttachmentEvents.{has_attachment_path, has_path}
use procnote.App.Repository.{StagedFile, has_content, is_known}
use procnote.App.Received.{IsReceived}

any-append_left :
    {A : Type 0} (p : A → Bool) (xs ys : List A) → any xs p ≡ true → any (xs ++ ys) p ≡ true
any-append_left p [] ys h = cc
any-append_left p (x ∷ xs) ys h = ground (arith, any-append_left p xs ys)

any-append_last :
    {A : Type 0} (p : A → Bool) (xs : List A) (x : A) → p x ≡ true → any (xs ++ x ∷ []) p ≡ true
any-append_last p [] x h = ground arith
any-append_last p (y ∷ ys) x h = ground (arith, any-append_last p ys x h)

or_left : (a b c : Bool) → (a ≡ true → c ≡ true) → a || b ≡ true → c || b ≡ true
or_left a b c f h = ground (arith, f)

or_both :
    (a b c d : Bool) → (a ≡ true → c ≡ true) → (b ≡ true → d ≡ true) → a || b ≡ true → c || d ≡ true
or_both a b c d f g h = ground (arith, f, g)

or_true : (b c : Bool) → b ≡ true → b || c ≡ true
or_true b c h = ground arith

module _ {a : AttachmentRecord} {s s' : ExecutionState} (r : IsReceived a s s') where
  has_content-grows : (sha256 : String) → has_content s sha256 ≡ true → has_content s' sha256 ≡ true
  unfolding has_content
  has_content-grows sha256 h =
      subst (λ (x : ExecutionState). has_content x sha256 ≡ true) (sym r.after)
        (or_left _ _ _ (any-append_left (λ f. f.sha256 == sha256) s.inbox _) h)

  has_attachment_path-grows :
      (path : String) → has_attachment_path path s ≡ true → has_attachment_path path s' ≡ true
  unfolding has_attachment_path has_path
  has_attachment_path-grows path h =
      subst (λ (x : ExecutionState). has_attachment_path path x ≡ true) (sym r.after)
        (or_left _ _ _ (any-append_left (λ f. f.path == path) s.inbox _) h)

  pub is_known-grows : (f : StagedFile) → is_known s f ≡ true → is_known s' f ≡ true
  unfolding is_known
  is_known-grows f =
      or_both _ _ _ _ (has_content-grows f.file.sha256) (has_attachment_path-grows f.file.path)

  pub has_content-received : has_content s' a.sha256 ≡ true
  unfolding has_content from_record_at
  has_content-received =
      subst (λ (x : ExecutionState). has_content x a.sha256 ≡ true) (sym r.after)
        (or_true _ _ (any-append_last (λ f. f.sha256 == a.sha256) s.inbox _ (eq_refl a.sha256)))

  pub has_path-received : has_attachment_path a.path s' ≡ true
  unfolding has_attachment_path has_path from_record_at
  has_path-received =
      subst (λ (x : ExecutionState). has_attachment_path a.path x ≡ true) (sym r.after)
        (or_true _ _ (any-append_last (λ f. f.path == a.path) s.inbox _ (eq_refl a.path)))
