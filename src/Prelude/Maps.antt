-- ===== src/Prelude/Maps.antt =====
-- `HashMap<String, V>` as a list of entries. `insert` overwrites the value of a key that is there, so
-- a key occurs once. The order of the entries stands for the map's unspecified iteration order.
use Prim.Native.String.{String}
use mathlib.Core.Path.{◌≡◌, refl, sym, subst, subst₂}
use mathlib.Core.Bool.{Bool}
use mathlib.Core.Logic.{inl, inr}
use mathlib.Core.Option.{Option, none, some}
use mathlib.Core.List.{List, [], ◌∷◌, map}
use native.Mathlib.Omega.{arith}
use text.Mathlib.Text.{◌==◌}
use text.Mathlib.TextEquality.{eq_iff}
use procnote.Prelude.Tests.{if◌then◌else◌, is_some, Bool-cases}
use procnote.Prelude.Lists.{All}

abbrev pub Keyed {ℓ} : Type ℓ → Type ℓ
Keyed V = List (String × V)

module _ {ℓ} {V : Type ℓ} where
  unfoldable pub get : String → Keyed V → Option V
  get k [] = none
  get k ((j, v) ∷ m) = if j == k then some v else get k m

  unfoldable pub insert : String → V → Keyed V → Keyed V
  insert k v [] = (k, v) ∷ []
  insert k v ((j, w) ∷ m) = if j == k then (j, v) ∷ m else (j, w) ∷ insert k v m

  unfoldable pub remove : String → Keyed V → Keyed V
  remove k [] = []
  remove k ((j, v) ∷ m) = let rest = remove k m in if j == k then rest else (j, v) ∷ rest

  abbrev pub contains_key : String → Keyed V → Bool
  contains_key k m = is_some (get k m)

  abbrev pub values : Keyed V → List V
  values = map (λ e. e.1)

  pub get-insert :
      (k j : String) (v : V) (m : Keyed V)
      → get j (insert k v m) ≡ (if k == j then some v else get j m)
  unfolding get insert
  get-insert k j v [] = refl
  get-insert k j v ((i, w) ∷ m) =
      ground (arith, eq_iff k j, eq_iff i k, eq_iff i j, get-insert k j v m)

  pub get-remove :
      (k j : String) (m : Keyed V) → get j (remove k m) ≡ (if k == j then none else get j m)
  unfolding get remove
  get-remove k j [] = ground arith
  get-remove k j ((i, w) ∷ m) = ground (arith, eq_iff k j, eq_iff i k, eq_iff i j, get-remove k j m)

  -- Writing back what was read changes nothing.
  pub insert-get_self : (k : String) (v : V) (m : Keyed V) → get k m ≡ some v → insert k v m ≡ m
  unfolding get insert
  insert-get_self k v [] h = ground arith
  insert-get_self k v ((i, w) ∷ m) h = ground (arith, insert-get_self k v m)

  -- Removing a key that is not there changes nothing.
  pub remove_absent : (k : String) (m : Keyed V) → get k m ≡ none → remove k m ≡ m
  unfolding get remove
  remove_absent k [] h = refl
  remove_absent k ((i, w) ∷ m) h = ground (arith, remove_absent k m)

  pub insert_twice : (k : String) (v w : V) (m : Keyed V) → insert k w (insert k v m) ≡ insert k w m
  unfolding insert
  insert_twice k v w [] = ground (arith, eq_iff k k)
  insert_twice k v w ((i, u) ∷ m) = ground (arith, insert_twice k v w m)

  pub remove-insert_absent :
      (k : String) (v : V) (m : Keyed V) → get k m ≡ none → remove k (insert k v m) ≡ m
  unfolding get insert remove
  remove-insert_absent k v [] h = ground (arith, eq_iff k k)
  remove-insert_absent k v ((i, u) ∷ m) h = ground (arith, remove-insert_absent k v m)

  pub remove-insert : (k : String) (v : V) (m : Keyed V) → remove k (insert k v m) ≡ remove k m
  unfolding insert remove
  remove-insert k v [] = ground (arith, eq_iff k k)
  remove-insert k v ((i, u) ∷ m) = ground (arith, remove-insert k v m)

module _ {ℓ κ} {V : Type ℓ} (P : String → V → Type κ) where
  -- every entry satisfies `P`
  abbrev pub AllEntries : Keyed V → Type κ
  AllEntries = All (λ e. P e.0 e.1)

  pub AllEntries-get : (k : String) (v : V) (m : Keyed V) → AllEntries m → get k m ≡ some v → P k v
  unfolding get
  AllEntries-get k v [] h e = cc
  AllEntries-get k v ((j, w) ∷ m) h e = elim (Bool-cases (j == k)) [
    | inl same ↦ let q : w ≡ v = ground arith in subst₂ P ((eq_iff j k).0 same) q h.0
    | inr other ↦ AllEntries-get k v m h.1 (rw other at e)
  ]

  pub AllEntries-insert :
      (k : String) (v : V) (m : Keyed V) → AllEntries m → P k v → AllEntries (insert k v m)
  unfolding insert
  AllEntries-insert k v [] h p = (p, tt)
  AllEntries-insert k v ((j, w) ∷ m) h p = elim (Bool-cases (j == k)) [
    | inl same ↦ rw same (subst (λ x. P x v) (sym ((eq_iff j k).0 same)) p, h.1)
    | inr other ↦ rw other (h.0, AllEntries-insert k v m h.1 p)
  ]

  pub AllEntries-remove : (k : String) (m : Keyed V) → AllEntries m → AllEntries (remove k m)
  unfolding remove
  AllEntries-remove k [] h = tt
  AllEntries-remove k ((j, w) ∷ m) h = elim (Bool-cases (j == k)) [
    | inl same ↦ rw same (AllEntries-remove k m h.1)
    | inr other ↦ rw other (h.0, AllEntries-remove k m h.1)
  ]
