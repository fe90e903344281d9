-- ===== src/Store/Outbox/Lines.antt =====
-- crates/procnote-app/src/persistence/outbox.rs: lemmas on `parse_lines` and `append_lines`.
use procnote.Prelude.{
  ℕ, suc, ◌+◌, String, Bool, true, false, ◌&&◌, ◌≡◌, refl, ap, sym, subst, ◌∙◌, List, [], ◌∷◌, ◌++◌,
  arith, Result, ok, err, filter, filter-append, length, length-append, append, to_string, nat_eq,
  is_blank,
}
use mathlib.Core.List.{append_assoc, append-nil}
use text.Mathlib.TextLemmas.{nil-append}
use procnote.EventLog.Append.{LogFile, write_line, text_left}
use procnote.Store.Outbox.{has_text, push_item, parse_from, parse_lines, append_lines}

module _ (Value : Type 0) (from_str : String → Result String Value) {T : Type 0}
    (parse : Value → Result String T) where
  -- The line is a text of this item.
  pub record IsText (line : String) (item : T) : Type 0 where
    pub value : Value
    pub reads : from_str line ≡ ok value
    pub parses : parse value ≡ ok item
    pub text : is_blank line ≡ false

  pub data Texts : List String → List T → Type 0 where
    done : Texts [] []
    entry :
        (line : String) (item : T) {lines : List String} {items : List T}
        → IsText line item
        → Texts lines items
        → Texts (line ∷ lines) (item ∷ items)

  pub Texts-append :
      {lines more : List String} {items others : List T}
      → Texts lines items
      → Texts more others
      → Texts (lines ++ more) (items ++ others)
  Texts-append Texts.done t = t
  Texts-append (Texts.entry line item h rest) t = Texts.entry line item h (Texts-append rest t)

  -- Behind lines that read, the loop goes on with the rest.
  parse_from-append :
      (n : ℕ) (closed : Bool) (i : ℕ) {lines : List String} {items : List T} (more : List String)
      (others : List T)
      → Texts lines items
      → parse_from Value from_str parse n closed (i + length lines) more ≡ ok others
      → parse_from Value from_str parse n closed i (lines ++ more) ≡ ok (items ++ others)
  unfolding parse_from push_item
  parse_from-append n closed i more others Texts.done h =
      let e : i + 0 ≡ i = omega arith in rw e at h
  parse_from-append n closed i {lines = _ ∷ lines} {items = _ ∷ items} more others
        (Texts.entry line item t rest) h =
      let e : i + suc (length lines) ≡ i + 1 + length lines = omega arith in
      let later : parse_from Value from_str parse n closed (i + 1) (lines ++ more)
          ≡ ok (items ++ others) =
        parse_from-append n closed (i + 1) more others rest (rw e at h) in
      rw (t.reads, t.parses, later, push_item) refl

  -- Behind lines that read, an error of the rest is the error.
  parse_from-error :
      (n : ℕ) (closed : Bool) (i : ℕ) {lines : List String} {items : List T} (more : List String)
      (e : String)
      → Texts lines items
      → parse_from Value from_str parse n closed (i + length lines) more ≡ err e
      → parse_from Value from_str parse n closed i (lines ++ more) ≡ err e
  unfolding parse_from push_item
  parse_from-error n closed i more e Texts.done h = let e : i + 0 ≡ i = omega arith in rw e at h
  parse_from-error n closed i {lines = _ ∷ lines} {items = _ ∷ items} more e
        (Texts.entry line item t rest) h =
      let q : i + suc (length lines) ≡ i + 1 + length lines = omega arith in
      let later : parse_from Value from_str parse n closed (i + 1) (lines ++ more) ≡ err e =
        parse_from-error n closed (i + 1) more e rest (rw q at h) in
      rw (t.reads, t.parses, later, push_item) refl

  Texts-has_text :
      {lines : List String} {items : List T} → Texts lines items → filter has_text lines ≡ lines
  Texts-has_text Texts.done = refl
  Texts-has_text (Texts.entry line item t rest) = rw t.text (ap (◌∷◌ line) (Texts-has_text rest))

  closed_append :
      (lines more : List String)
      → append_lines more (record { lines = lines; rest = "" })
        ≡ record { lines = lines ++ more; rest = "" }
  unfolding append_lines write_line
  closed_append lines [] = rw append-nil refl
  closed_append lines (line ∷ more) =
      simp (nil-append, closed_append (lines ++ line ∷ []) more, append_assoc)

  -- What a file holds: its lines with text are texts of these items, and no line is cut short.
  pub record Holds (file : LogFile) (items : List T) : Type 0 where
    pub texts : Texts (filter has_text file.lines) items
    pub closed : file.rest ≡ ""

  filter_texts :
      (lines : List String) {more : List String} {others : List T}
      → Texts more others
      → filter has_text (lines ++ more) ≡ filter has_text lines ++ more
  filter_texts lines {more} t =
      filter-append has_text lines more ∙ ap (◌++◌ (filter has_text lines)) (Texts-has_text t)

  -- Appended lines are read back, in order, behind what the file held.
  pub append_lines-Holds :
      {file : LogFile} {items others : List T} {more : List String}
      → Holds file items
      → Texts more others
      → Holds (append_lines more file) (items ++ others)
  append_lines-Holds {file} {items} {others} {more} h t =
      subst (λ f. Holds f (items ++ others))
        (sym (ap (append_lines more) whole ∙ closed_append file.lines more))
        (record { texts = rw (filter_texts file.lines t) (Texts-append h.texts t); closed = refl })
    where
      whole : file ≡ record { lines = file.lines; rest = "" }
      whole = λ i. record { lines = file.lines; rest = h.closed i }

  nothing : (n : ℕ) (closed : Bool) (i : ℕ) → parse_from Value from_str parse n closed i [] ≡ ok []
  unfolding parse_from
  nothing n closed i = refl

  parse_texts :
      (n : ℕ) (closed : Bool) {lines : List String} {items : List T}
      → Texts lines items
      → parse_from Value from_str parse n closed 0 lines ≡ ok items
  parse_texts n closed {lines} {items} t =
      rw (append-nil lines, append-nil items) at
        (parse_from-append n closed 0 [] [] t (nothing n closed (0 + length lines)))

  pub parse_lines-Holds :
      {file : LogFile} {items : List T}
      → Holds file items
      → parse_lines Value from_str parse file ≡ ok items
  unfolding parse_lines
  parse_lines-Holds {file} {items} h =
      simp (h.closed, append-nil) (parse_texts (length (filter has_text file.lines)) true h.texts)

  -- What a crash leaves of a line: text that is no JSON, with no line end.
  pub record IsCutLine (cut e : String) : Type 0 where
    pub text : is_blank cut ≡ false
    pub refused : from_str cut ≡ err e

  filter_cut :
      (lines : List String) (cut : String)
      → is_blank cut ≡ false
      → filter has_text (lines ++ cut ∷ []) ≡ filter has_text lines ++ cut ∷ []
  filter_cut lines cut text = rw (filter-append has_text lines (cut ∷ []), text) refl

  length_cut : (xs : List String) (x : String) → length (xs ++ x ∷ []) ≡ length xs + 1
  length_cut xs x = length-append xs (x ∷ [])

  nat_eq_self : (n m : ℕ) → n ≡ m → nat_eq n m ≡ true
  nat_eq_self n m h = ground arith

  last_cut :
      (n i : ℕ) (cut e : String)
      → from_str cut ≡ err e
      → i + 1 ≡ n
      → parse_from Value from_str parse n false i (cut ∷ []) ≡ ok []
  unfolding parse_from
  last_cut n i cut e refused last = rw (refused, nat_eq_self (i + 1) n last, parse_from) refl

  -- A line that a crash cut short is passed over.
  pub parse_lines-cut :
      (lines : List String) (cut e : String) {items : List T}
      → Texts (filter has_text lines) items
      → IsCutLine cut e
      → parse_lines Value from_str parse (record { lines = lines; rest = cut }) ≡ ok items
  unfolding parse_lines
  parse_lines-cut lines cut e {items} t c =
      let texts = filter has_text lines in
      let n = length (texts ++ cut ∷ []) in
      rw (text_left cut c.text, filter_cut lines cut c.text)
        (rw (append-nil items) at (
          parse_from-append n false 0 (cut ∷ []) [] t
            (last_cut n (0 + length texts) cut e c.refused (omega (arith, length_cut texts cut)))))

  corrupt :
      (n i k : ℕ) (bad e : String) (more : List String)
      → i ≡ k
      → from_str bad ≡ err e
      → parse_from Value from_str parse n true i (bad ∷ more)
        ≡ err (append "corrupt line " (append (to_string (k + 1)) (append ": " e)))
  unfolding parse_from
  corrupt n i k bad e more same refused =
      subst
        (λ j.
          parse_from Value from_str parse n true j (bad ∷ more)
          ≡ err (append "corrupt line " (append (to_string (k + 1)) (append ": " e))))
        (sym same) (rw (refused, and_false (nat_eq (k + 1) n), parse_from) refl)
    where
      and_false : (b : Bool) → b && false ≡ false
      and_false b = ground arith

  appended_cut :
      (lines : List String) (cut json : String)
      → append_lines (json ∷ []) (record { lines = lines; rest = cut })
        ≡ record { lines = lines ++ append cut json ∷ []; rest = "" }
  unfolding append_lines write_line
  appended_cut lines cut json = refl

  -- What is appended behind a line that was cut short makes the file unreadable.
  pub append_lines-corrupt :
      (lines : List String) (cut json e : String) {items : List T}
      → Texts (filter has_text lines) items
      → IsCutLine (append cut json) e
      → parse_lines Value from_str parse
          (append_lines (json ∷ []) (record { lines = lines; rest = cut }))
        ≡ err (
            append "corrupt line "
              (append (to_string (length (filter has_text lines) + 1)) (append ": " e)))
  unfolding parse_lines
  append_lines-corrupt lines cut json e {items} t c =
      let texts = filter has_text lines in
      let joined = append cut json in
      rw
        (
          appended_cut lines cut json,
          append-nil (lines ++ joined ∷ []),
          filter_cut lines joined c.text,
        )
        (parse_from-error (length (texts ++ joined ∷ [])) true 0 (joined ∷ []) _ t (
          corrupt (length (texts ++ joined ∷ [])) (0 + length texts) (length texts) joined e []
            (omega arith) c.refused))
