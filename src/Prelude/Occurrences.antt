-- ===== src/Prelude/Occurrences.antt =====
-- How often a text occurs in a list.
use Prim.Native.Nat.{ℕ, zero, suc, ◌+◌, ◌≤◌, ◌<◌}
use Prim.Native.String.{String}
use mathlib.Core.Path.{◌≡◌, refl, subst}
use mathlib.Core.Logic.{◌≢◌}
use mathlib.Core.Bool.{Bool, true, false}
use mathlib.Core.List.{List, [], ◌∷◌, ◌++◌}
use native.Mathlib.Omega.{arith}
use text.Mathlib.Text.{◌==◌}
use text.Mathlib.TextEquality.{eq_iff}
use procnote.Prelude.Tests.{if◌then◌else◌}
use procnote.Prelude.Lists.{any, length, insert_idx}

abbrev pub occurrences : String → List String → ℕ
occurrences id [] = 0
occurrences id (x ∷ xs) = let rest = occurrences id xs in if x == id then suc rest else rest

abbrev pub one_if : Bool → ℕ
one_if true = 1
one_if false = 0

pub occurrences-append :
    (id : String) (xs ys : List String)
    → occurrences id (xs ++ ys) ≡ occurrences id xs + occurrences id ys
occurrences-append id [] ys = omega arith
occurrences-append id (x ∷ xs) ys = ground (arith, occurrences-append id xs ys)

pub occurrences-insert_idx :
    (id a : String) (xs : List String) (i : ℕ)
    → occurrences id (insert_idx xs i a) ≡ occurrences id xs + one_if (a == id)
occurrences-insert_idx id a xs zero = ground arith
occurrences-insert_idx id a [] (suc i) = ground arith
occurrences-insert_idx id a (x ∷ xs) (suc i) = ground (arith, occurrences-insert_idx id a xs i)

pub any-occurrences :
    (id : String) (xs : List String) → any xs (λ u. u == id) ≡ false → occurrences id xs ≡ 0
any-occurrences id [] h = refl
any-occurrences id (x ∷ xs) h = ground (arith, any-occurrences id xs)

-- The list without the first occurrence.
abbrev pub erase : String → List String → List String
erase a [] = []
erase a (x ∷ xs) = let rest = erase a xs in if x == a then xs else x ∷ rest

length-erase :
    (a : String) (xs : List String)
    → any xs (λ u. u == a) ≡ true
    → length (erase a xs) + 1 ≡ length xs
length-erase a [] h = cc
length-erase a (x ∷ xs) h = ground (arith, length-erase a xs)

any-erase :
    (a b : String) (xs : List String)
    → a ≢ b
    → any xs (λ u. u == b) ≡ true
    → any (erase a xs) (λ u. u == b) ≡ true
any-erase a b [] n h = cc
any-erase a b (x ∷ xs) n h = ground (arith, any-erase a b xs, eq_iff x a, eq_iff x b)

-- A list that holds `k` distinct texts has at least `k` elements.
pub pigeonhole :
    (name : ℕ → String)
    → ((i j : ℕ) → name i ≡ name j → i ≡ j)
    → (k start : ℕ) (xs : List String)
    → ((i : ℕ) → i < k → any xs (λ u. u == name (start + i)) ≡ true)
    → k ≤ length xs
pigeonhole name inj zero start xs all = omega arith
pigeonhole name inj (suc k) start xs all =
    let first : any xs (λ u. u == name start) ≡ true =
      subst (λ n. any xs (λ u. u == name n) ≡ true) (omega arith) (all 0 (omega arith)) in
    omega (
      arith,
      length-erase (name start) xs first,
      pigeonhole name inj k (suc start) (erase (name start) xs) λ i below.
          any-erase (name start) (name (suc start + i)) xs
            (λ e. absurd (omega (arith, inj start (suc start + i) e)))
            (subst (λ n. any xs (λ u. u == name n) ≡ true) (omega arith)
              (all (suc i) (omega arith))),
    )
