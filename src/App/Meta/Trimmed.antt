-- ===== src/App/Meta/Trimmed.antt =====
-- crates/procnote-app/src/action.rs: lemmas on `into_event_meta`.
use procnote.Prelude.{
  String, false, ◌&&◌, ◌≡◌, refl, ap, ◌∙◌, inl, inr, Option, none, some, trim, trim_start, trim_end,
  is_blank, is_empty_text, is_whitespace, Bool-cases,
}
use Prim.Native.Char.{code}
use procnote.App.Meta.{ActionMeta, non_blank, into_event_meta}

-- The text does not start with white space.
abbrev Starts : String → Type 0
Starts String.[] = Unit
Starts (String.◌∷◌ c s) = is_whitespace (code c) ≡ false

trim_start-Starts : (s : String) → Starts (trim_start s)
unfolding trim_start
trim_start-Starts String.[] = tt
trim_start-Starts (String.◌∷◌ c s) = elim (Bool-cases (is_whitespace (code c))) [
  | inl space ↦ rw (space, trim_start) (trim_start-Starts s)
  | inr text ↦ rw (text, trim_start) text
]

trim_start-text : (s : String) → Starts s → trim_start s ≡ s
unfolding trim_start
trim_start-text String.[] h = refl
trim_start-text (String.◌∷◌ c s) h = rw (h, trim_start) refl

trim_end-Starts : (s : String) → Starts s → Starts (trim_end s)
unfolding trim_end
trim_end-Starts String.[] h = tt
trim_end-Starts (String.◌∷◌ c s) h =
    elim (Bool-cases (is_empty_text (trim_end s) && is_whitespace (code c))) [
      | inl blank ↦ rw (blank, trim_end) tt
      | inr text ↦ rw (text, trim_end) h
    ]

trim_end-trim_end : (s : String) → trim_end (trim_end s) ≡ trim_end s
unfolding trim_end
trim_end-trim_end String.[] = refl
trim_end-trim_end (String.◌∷◌ c s) =
    elim (Bool-cases (is_empty_text (trim_end s) && is_whitespace (code c))) [
      | inl blank ↦ rw (blank, trim_end) refl
      | inr text ↦ rw (text, trim_end, trim_end-trim_end s, text) refl
    ]

trim-trim : (s : String) → trim (trim s) ≡ trim s
unfolding trim
trim-trim s =
    ap trim_end (trim_start-text _ (trim_end-Starts (trim_start s) (trim_start-Starts s)))
    ∙ trim_end-trim_end (trim_start s)

-- A text that is stored is trimmed and has something in it.
abbrev pub IsKept : Option String → Type 0
IsKept none = Unit
IsKept (some t) = (trim t ≡ t) × (is_blank t ≡ false)

non_blank-IsKept : (o : Option String) → IsKept (non_blank o)
unfolding non_blank is_blank
non_blank-IsKept none = tt
non_blank-IsKept (some v) = elim (Bool-cases (is_empty_text (trim v))) [
  | inl blank ↦ rw (blank, non_blank) tt
  | inr text ↦ rw (text, non_blank) (trim-trim v, ap is_empty_text (trim-trim v) ∙ text)
]

non_blank-kept : (o : Option String) → IsKept o → non_blank o ≡ o
unfolding non_blank is_blank
non_blank-kept none h = refl
non_blank-kept (some t) (same, text) = rw (text, non_blank) (ap some same)

-- The names stored with an event are trimmed and not blank, whatever the request gave, or left out;
-- and to store them once more changes nothing.
pub into_event_meta-IsKept :
    (m : ActionMeta)
    → IsKept (into_event_meta m).recorded_by
      × IsKept (into_event_meta m).device
      × (non_blank (into_event_meta m).recorded_by ≡ (into_event_meta m).recorded_by)
      × (non_blank (into_event_meta m).device ≡ (into_event_meta m).device)
unfolding into_event_meta
into_event_meta-IsKept m = (
  non_blank-IsKept m.recorded_by,
  non_blank-IsKept m.device,
  non_blank-kept (non_blank m.recorded_by) (non_blank-IsKept m.recorded_by),
  non_blank-kept (non_blank m.device) (non_blank-IsKept m.device),
)
