-- ===== src/Prelude/Text.antt =====
-- Characters of a text as numbers, concatenation, and the decimal print of `format!("{n}")`.
use Prim.Native.Nat.{ℕ, zero, suc, ◌+◌, ◌-◌, ◌*◌, ◌/◌, ◌%◌, ◌<◌, compare, Ordering}
use Prim.Native.Char.{Char, code}
use Prim.Native.String.{String, ◌++◌}
use mathlib.Core.List.{List, [], ◌∷◌}
use mathlib.Core.Bool.{Bool, true, false, ◌&&◌, ◌||◌}
use procnote.Prelude.Tests.{nat_eq, leb, if◌then◌else◌}
use mathlib.Core.Path.{◌≡◌, refl, ap, sym, ◌∙◌}
use native.Mathlib.Omega.{arith}
use text.Mathlib.TextLemmas.{append_cancel_left}

-- The code points of a text.
abbrev pub codes : String → List ℕ
codes String.[] = []
codes (String.◌∷◌ c s) = code c ∷ codes s

abbrev pub append : String → String → String
append s t = s ++ t

digit : ℕ → Char
digit zero = "0"
digit (suc zero) = "1"
digit (suc (suc zero)) = "2"
digit (suc (suc (suc zero))) = "3"
digit (suc (suc (suc (suc zero)))) = "4"
digit (suc (suc (suc (suc (suc zero))))) = "5"
digit (suc (suc (suc (suc (suc (suc zero)))))) = "6"
digit (suc (suc (suc (suc (suc (suc (suc zero))))))) = "7"
digit (suc (suc (suc (suc (suc (suc (suc (suc zero)))))))) = "8"
digit _ = "9"

print_digits : ℕ → ℕ → String → String
print_digits zero n out = out
print_digits (suc fuel) n out =
    let rest = print_digits fuel (n / 10) (String.◌∷◌ (digit (n % 10)) out) in
    elim (compare n 10) [ Ordering.lt ↦ String.◌∷◌ (digit (n % 10)) out | _ ↦ rest ]

-- `n.to_string()`. Each round divides by ten, so `n + 1` rounds are enough.
unfoldable pub to_string : ℕ → String
unfolding print_digits digit
to_string n = print_digits (suc n) n String.[]

scan : ℕ → String → ℕ
scan v String.[] = v
scan v (String.◌∷◌ c s) = scan (v * 10 + (code c - 48)) s

code-digit : (d : ℕ) → d < 10 → code (digit d) - 48 ≡ d
unfolding digit
code-digit zero h = refl
code-digit (suc zero) h = refl
code-digit (suc (suc zero)) h = refl
code-digit (suc (suc (suc zero))) h = refl
code-digit (suc (suc (suc (suc zero)))) h = refl
code-digit (suc (suc (suc (suc (suc zero))))) h = refl
code-digit (suc (suc (suc (suc (suc (suc zero)))))) h = refl
code-digit (suc (suc (suc (suc (suc (suc (suc zero))))))) h = refl
code-digit (suc (suc (suc (suc (suc (suc (suc (suc zero)))))))) h = refl
code-digit (suc (suc (suc (suc (suc (suc (suc (suc (suc zero))))))))) h = refl
code-digit (suc (suc (suc (suc (suc (suc (suc (suc (suc (suc d)))))))))) h = absurd (omega arith)

scan-digit : (v d : ℕ) (s : String) → d < 10 → scan v (String.◌∷◌ (digit d) s) ≡ scan (v * 10 + d) s
unfolding scan
scan-digit v d s h = ap (λ x. scan (v * 10 + x) s) (code-digit d h)

scan-print_digits :
    (fuel n : ℕ) (out : String) → n < fuel → scan 0 (print_digits fuel n out) ≡ scan n out
unfolding print_digits
scan-print_digits zero n out h = absurd (omega arith)
scan-print_digits (suc fuel) n out h = ground (
  arith,
  scan-print_digits fuel (n / 10) (String.◌∷◌ (digit (n % 10)) out),
  scan-digit 0 (n % 10) out,
  scan-digit (n / 10) (n % 10) out,
)

-- Two numbers with the same decimal print are equal.
pub to_string-injective : (m n : ℕ) → to_string m ≡ to_string n → m ≡ n
unfolding to_string scan
to_string-injective m n e =
    sym (scan-print_digits (suc m) m String.[] (omega arith))
    ∙ ap (scan 0) e
    ∙ scan-print_digits (suc n) n String.[] (omega arith)

pub append_cancel : (s t u : String) → append s t ≡ append s u → t ≡ u
append_cancel s t u e = append_cancel_left s t u e

to_string_example : to_string 1042 ≡ "1042"
unfolding to_string
to_string_example = refl

-- `char::is_whitespace`: the code points with the property `White_Space`.
abbrev pub is_whitespace : ℕ → Bool
is_whitespace c =
    (leb 9 c && leb c 13)
    || nat_eq c 32
    || nat_eq c 133
    || nat_eq c 160
    || nat_eq c 5760
    || (leb 8192 c && leb c 8202)
    || nat_eq c 8232
    || nat_eq c 8233
    || nat_eq c 8239
    || nat_eq c 8287
    || nat_eq c 12288

unfoldable pub trim_start : String → String
trim_start String.[] = String.[]
trim_start (String.◌∷◌ c s) =
    let rest = trim_start s in if is_whitespace (code c) then rest else String.◌∷◌ c s

abbrev pub is_empty_text : String → Bool
is_empty_text String.[] = true
is_empty_text (String.◌∷◌ c s) = false

unfoldable pub trim_end : String → String
trim_end String.[] = String.[]
trim_end (String.◌∷◌ c s) =
    let rest = trim_end s in
    if is_empty_text rest && is_whitespace (code c) then String.[] else String.◌∷◌ c rest

-- `text.trim()`
unfoldable pub trim : String → String
trim s = trim_end (trim_start s)

-- `text.trim().is_empty()`
unfoldable pub is_blank : String → Bool
is_blank s = is_empty_text (trim s)
