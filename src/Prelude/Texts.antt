-- ===== src/Prelude/Texts.antt =====
-- Texts as the lists of their codes, where the source looks into them, and native texts where it
-- only compares and joins them.
use Prim.Native.Nat.{ℕ, ◌+◌}
use Prim.Native.Char.{code}
use Prim.Native.String.{String, ◌++◌}
use mathlib.Core.Bool.{Bool, true, false, ◌&&◌, ◌||◌}
use mathlib.Core.List.{List, [], ◌∷◌, map}
use aijoes_app.Prelude.Tests.{leb, ◌==◌, if◌then◌else◌}

-- The numbers of a text's characters.
abbrev pub codes : String → List ℕ
codes String.[] = []
codes (String.◌∷◌ first rest) = code first ∷ codes rest

abbrev pub starts_with : List ℕ → List ℕ → Bool
starts_with [] s = true
starts_with (c ∷ p) [] = false
starts_with (c ∷ p) (d ∷ s) = c == d && starts_with p s

-- `s.includes(p)`
unfoldable pub includes : List ℕ → List ℕ → Bool
includes p [] = starts_with p []
includes p (d ∷ s) = starts_with p (d ∷ s) || includes p s

abbrev pub to_lower : ℕ → ℕ
to_lower c = if leb 65 c && leb c 90 then c + 32 else c

abbrev pub join : List String → String
join [] = ""
join (s ∷ ss) = s ++ join ss

-- `s.toLowerCase()` of a text whose capital letters are those of ASCII, as its codes.
abbrev pub lower : String → List ℕ
lower s = map to_lower (codes s)

abbrev pub same_codes : List ℕ → List ℕ → Bool
same_codes [] [] = true
same_codes [] (d ∷ s) = false
same_codes (c ∷ p) [] = false
same_codes (c ∷ p) (d ∷ s) = c == d && same_codes p s
