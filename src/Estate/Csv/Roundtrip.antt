-- ===== src/Estate/Csv/Roundtrip.antt =====
-- What is quoted as CSV writes it, read by `splitCsvLine` of src/lib/estate/import.ts.
use aijoes_app.Prelude.{
  ==_iff, subst, ℕ, Bool, true, false, ◌≡◌, refl, ap, ◌∙◌, sym, inl, inr, List, [], ◌∷◌, ◌++◌, map,
  Bool-cases, ◌==◌, if◌then◌else◌,
}
use aijoes_app.Estate.Csv.{
  Text, quote, comma, Scan, push, turn, quote_next, scan, trim, split_csv_line,
}

-- A cell between quotes, with each quote in it doubled, before the rest of the line.
abbrev pub quoted_before : Text → Text → Text
quoted_before [] rest = quote ∷ rest
quoted_before (c ∷ cell) rest =
    let more = quoted_before cell rest in if c == quote then quote ∷ quote ∷ more else c ∷ more

-- The cells of a line, each in quotes, with commas between them.
abbrev pub line_of : Text → List Text → Text
line_of cell [] = quote ∷ quoted_before cell []
line_of cell (next ∷ cells) = quote ∷ quoted_before cell (comma ∷ line_of next cells)

append_assoc : {A : Type 0} (xs ys zs : List A) → (xs ++ ys) ++ zs ≡ xs ++ (ys ++ zs)
append_assoc [] ys zs = refl
append_assoc (x ∷ xs) ys zs = ap (λ l. x ∷ l) (append_assoc xs ys zs)

append_nil : {A : Type 0} (xs : List A) → xs ++ [] ≡ xs
append_nil [] = refl
append_nil (x ∷ xs) = ap (λ l. x ∷ l) (append_nil xs)

abbrev inside : Text → List Text → Scan
inside current out = record { quoted = true; passing = false; current = current; out = out }

abbrev outside : Text → List Text → Scan
outside current out = record { quoted = false; passing = false; current = current; out = out }

-- A quote that no other follows ends the quoted part.
turn-closing :
    (next : Bool) (current : Text) (out : List Text)
    → next ≡ false
    → turn quote next (inside current out) ≡ outside current out
turn-closing next current out h = rw (h) refl

-- Any other character is written as it is and read as it is.
quoted_before-other :
    (c : ℕ) (cell rest : Text)
    → (c == quote) ≡ false
    → quoted_before (c ∷ cell) rest ≡ c ∷ quoted_before cell rest
quoted_before-other c cell rest e = rw (e) refl

turn-other :
    (c : ℕ) (next : Bool) (current : Text) (out : List Text)
    → (c == quote) ≡ false
    → turn c next (inside current out) ≡ inside (current ++ c ∷ []) out
turn-other c next current out e = rw (e) refl

-- Within quotes, a cell is added as it is, up to the quote that no other follows.
scan-quoted_before :
    (cell rest current : Text) (out : List Text)
    → quote_next rest ≡ false
    → scan (quoted_before cell rest) (inside current out)
      ≡ scan rest (outside (current ++ cell) out)
unfolding scan
scan-quoted_before [] rest current out h =
    ap (scan rest) (turn-closing (quote_next rest) current out h)
    ∙ ap (λ t. scan rest (outside t out)) (sym (append_nil current))
scan-quoted_before (c ∷ cell) rest current out h =
    let same =
      λ (d : ℕ). ap (λ t. scan rest (outside t out)) (append_assoc current (d ∷ []) cell) in
    let more = λ (d : ℕ). scan-quoted_before cell rest (current ++ d ∷ []) out h ∙ same d in
    elim (Bool-cases (c == quote)) [
      | inl e ↦
          subst
            (λ d.
              scan (quoted_before (d ∷ cell) rest) (inside current out)
              ≡ scan rest (outside (current ++ d ∷ cell) out))
            (sym ((==_iff c quote).0 e)) (more quote)
      | inr e ↦
          let left = quoted_before cell rest in
          ap (λ t. scan t (inside current out)) (quoted_before-other c cell rest e)
          ∙ ap (scan left) (turn-other c (quote_next left) current out e)
          ∙ more c
    ]

-- The rest of a line after a cell that was read.
scan-line_of :
    (cell : Text) (cells out : List Text)
    → (push (scan (line_of cell cells) (outside [] out))).out ≡ out ++ map trim (cell ∷ cells)
unfolding scan
scan-line_of cell [] out = ap (λ s. (push s).out) (scan-quoted_before cell [] [] out refl)
scan-line_of cell (next ∷ cells) out =
    ap (λ s. (push s).out) (scan-quoted_before cell (comma ∷ line_of next cells) [] out refl)
    ∙ scan-line_of next cells (out ++ trim cell ∷ [])
    ∙ append_assoc out (trim cell ∷ []) (map trim (next ∷ cells))

-- A line of cells in quotes, whatever the cells hold, is split into these cells without the white
-- space at their ends.
pub split_csv_line-line_of :
    (cell : Text) (cells : List Text)
    → split_csv_line (line_of cell cells) ≡ map trim (cell ∷ cells)
unfolding split_csv_line
split_csv_line-line_of cell cells = scan-line_of cell cells []
