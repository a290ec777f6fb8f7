-- ===== src/Estate/Csv.antt =====
-- `splitCsvLine` of src/lib/estate/import.ts, on the codes of a line.
pub mod Roundtrip
use aijoes_app.Prelude.{
  ℕ, Bool, true, false, ◌&&◌, ◌||◌, List, [], ◌∷◌, ◌++◌, ltb, leb, ◌==◌, if◌then◌else◌,
}

abbrev pub Text : Type 0
Text = List ℕ

abbrev pub quote : ℕ
quote = 34

abbrev pub comma : ℕ
comma = 44

-- A comma or a tab.
abbrev pub is_separator : ℕ → Bool
is_separator c = c == comma || c == 9

-- The white space and the line ends that `trim` takes off.
abbrev pub is_space : ℕ → Bool
is_space c =
    (leb 9 c && leb c 13)
    || c == 32
    || c == 160
    || c == 5760
    || (leb 8192 c && leb c 8202)
    || c == 8232
    || c == 8233
    || c == 8239
    || c == 8287
    || c == 12288
    || c == 65279

abbrev pub trim_start : Text → Text
trim_start [] = []
trim_start (c ∷ s) = if is_space c then trim_start s else c ∷ s

abbrev pub add_trimmed : ℕ → Text → Text
add_trimmed c [] = if is_space c then [] else c ∷ []
add_trimmed c (d ∷ s) = c ∷ d ∷ s

abbrev pub trim_end : Text → Text
trim_end [] = []
trim_end (c ∷ s) = add_trimmed c (trim_end s)

unfoldable pub trim : Text → Text
trim s = trim_end (trim_start s)

-- `quoted`, `current` and `out` of the loop, and whether `i++` passes over the next character.
pub record Scan : Type 0 where
  pub quoted : Bool
  pub passing : Bool
  pub current : Text
  pub out : List Text

abbrev pub add : ℕ → Scan → Scan
add c s = record s { current = s.current ++ c ∷ [] }

abbrev pub push : Scan → Scan
push s = record s { current = []; out = s.out ++ trim s.current ∷ [] }

-- `line[i + 1] === '"'`
abbrev pub quote_next : Text → Bool
quote_next [] = false
quote_next (c ∷ rest) = c == quote

abbrev pub turn_quoted : ℕ → Bool → Scan → Scan
turn_quoted c next s =
    if c == quote && next
    then record (add quote s) { passing = true }
    else if c == quote
    then record s { quoted = false }
    else add c s

abbrev pub turn_plain : ℕ → Scan → Scan
turn_plain c s =
    if c == quote then record s { quoted = true } else if is_separator c then push s else add c s

abbrev pub turn : ℕ → Bool → Scan → Scan
turn c next s =
    if s.passing
    then record s { passing = false }
    else if s.quoted
    then turn_quoted c next s
    else turn_plain c s

unfoldable pub scan : Text → Scan → Scan
scan [] s = s
scan (c ∷ rest) s = scan rest (turn c (quote_next rest) s)

abbrev pub start : Scan
start = record { quoted = false; passing = false; current = []; out = [] }

unfoldable pub split_csv_line : Text → List Text
split_csv_line line = (push (scan line start)).out
