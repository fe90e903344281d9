-- ===== src/Device/Monad.antt =====
-- Calls that act on a world and may fail, one after the other. Unlike that of the shared helpers this
-- bind is shut, so that rules about it are found by its shape.
use procnote.Prelude.{◌≡◌, refl, Result, ok, err, Exec, continue}

module _ {E S A B : Type 0} where
  infixl 5 ◌>>=◌ ◌>>◌
  -- `?`
  unfoldable pub ◌>>=◌ : Exec E S A → (A → Exec E S B) → Exec E S B
  ◌>>=◌ m f s = continue (m s).0 f (m s).1

  abbrev pub ◌>>◌ : Exec E S A → Exec E S B → Exec E S B
  m >> n = m >>= λ _. n

  pub continue-ok :
      {C : Type 0} (r : Result E A) (f : A → Exec E S B) (s t : S) (b : B)
      → continue r f s ≡ (ok b, t)
      → ((a : A) → r ≡ ok a → f a s ≡ (ok b, t) → C)
      → C
  continue-ok (ok a) f s t b h k = k a refl h
  continue-ok (err e) f s t b h k = absurd (no h)
    where
      no : ◌≡◌ {A = Result E B × S} (err e, s) (ok b, t) → ⊥
      no h = cc

-- A chain that goes through has gone through its first call, and the rest goes on from there.
pub >>=-ok :
    {E S A B C : Type 0} (m : Exec E S A) (f : A → Exec E S B) {s t : S} {b : B}
    → (m >>= f) s ≡ (ok b, t)
    → ((a : A) (u : S) → m s ≡ (ok a, u) → f a u ≡ (ok b, t) → C)
    → C
unfolding ◌>>=◌
>>=-ok m f {s} {t} {b} h k =
    continue-ok (m s).0 f (m s).1 t b h λ a e rest. k a (m s).1 (λ i. (e i, (m s).1)) rest
