-- ===== src/Execution/Checkboxes/Fresh.antt =====
-- crates/procnote-core/src/execution/engine.rs: lemmas on the search for a free checkbox ID.
use procnote.Prelude.{
  ℕ, zero, suc, ◌+◌, ◌<◌, String, true, false, ◌≡◌, subst, inl, inr, none, some, ◌∷◌, arith, length,
  append_cancel, to_string-injective, pigeonhole, Bool-cases, Option-cases,
}
use procnote.Execution.Checkboxes.{Namer, candidate, is_used, fresh_id}

candidate-injective :
    (step_id : String) (i j : ℕ) → candidate step_id i ≡ candidate step_id j → i ≡ j
unfolding candidate
candidate-injective step_id i j e =
    to_string-injective i j (append_cancel "/cb-" _ _ (append_cancel step_id _ _ e))

-- Out of fuel, all candidates that were tried are used.
tried :
    (fuel : ℕ) (step_id : String) (n : Namer)
    → fresh_id fuel step_id n ≡ none
    → (i : ℕ) → i < fuel
    → is_used n.used_ids (candidate step_id (n.checkbox_index + i)) ≡ true
unfolding fresh_id
tried zero step_id n h i below = absurd (omega arith)
tried (suc fuel) step_id n h i below =
    elim (Bool-cases (is_used n.used_ids (candidate step_id n.checkbox_index))) [
      | inr free ↦ cc (rw (free, fresh_id) at h)
      | inl used ↦
          later used
            (tried fuel step_id (record n { checkbox_index = n.checkbox_index + 1 })
              (rw (used, fresh_id) at h))
            i below
    ]
  where
    later :
        is_used n.used_ids (candidate step_id n.checkbox_index) ≡ true
        → ((j : ℕ)
            → j < fuel
            → is_used n.used_ids (candidate step_id (n.checkbox_index + 1 + j)) ≡ true)
        → (j : ℕ) → j < suc fuel
        → is_used n.used_ids (candidate step_id (n.checkbox_index + j)) ≡ true
    later used rest zero _ =
        subst (λ m. is_used n.used_ids (candidate step_id m) ≡ true) (omega arith) used
    later used rest (suc j) j_below =
        subst (λ m. is_used n.used_ids (candidate step_id m) ≡ true) (omega arith)
          (rest j (omega arith))

-- The loop that looks for a free checkbox ID ends: with one round more than there are used IDs it
-- finds one, since the candidates are all different.
pub fresh_id_total :
    (step_id : String) (n : Namer)
    → (found : String × Namer) × (fresh_id (suc (length n.used_ids)) step_id n ≡ some found)
unfolding is_used
fresh_id_total step_id n = elim (Option-cases (fresh_id (suc (length n.used_ids)) step_id n)) [
  | inr (found, e) ↦ (found, e)
  | inl none_left ↦ absurd (
      omega (
        arith,
        pigeonhole (candidate step_id) (candidate-injective step_id) (suc (length n.used_ids))
            n.checkbox_index n.used_ids (tried (suc (length n.used_ids)) step_id n none_left),
      ))
]

-- What the loop finds was not used, and is used from then on.
pub fresh_id_new :
    (fuel : ℕ) (step_id : String) (n : Namer) (id : String) (n' : Namer)
    → fresh_id fuel step_id n ≡ some (id, n')
    → (is_used n.used_ids id ≡ false) × (n'.used_ids ≡ id ∷ n.used_ids)
unfolding fresh_id
fresh_id_new zero step_id n id n' h = cc
fresh_id_new (suc fuel) step_id n id n' h =
    elim (Bool-cases (is_used n.used_ids (candidate step_id n.checkbox_index))) [
      | inl used ↦
          fresh_id_new fuel step_id (record n { checkbox_index = n.checkbox_index + 1 }) id n'
            (rw (used, fresh_id) at h)
      | inr free ↦
          let q : candidate step_id n.checkbox_index ≡ id = ground (arith, free) in
          (rw (← q) free, ground (arith, free))
    ]
