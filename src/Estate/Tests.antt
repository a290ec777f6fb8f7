-- ===== src/Estate/Tests.antt =====
-- Lines of a pasted list of customers.
use aijoes_app.Prelude.{◌≡◌, refl, [], ◌∷◌, map}
use aijoes_app.Estate.Csv.{Text, quote, comma, trim, scan, split_csv_line}
use aijoes_app.Estate.Csv.Roundtrip.{line_of, split_csv_line-line_of}

-- The codes of `Acme "UK", Ltd ` and of `acme.io`.
abbrev company : Text
company = 65 ∷ 99 ∷ 109 ∷ 101 ∷ 32 ∷ quote ∷ 85 ∷ 75 ∷ quote ∷ comma ∷ 32 ∷ 76 ∷ 116 ∷ 100 ∷ 32 ∷ []

abbrev site : Text
site = 97 ∷ 99 ∷ 109 ∷ 101 ∷ 46 ∷ 105 ∷ 111 ∷ []

split_plain : split_csv_line (65 ∷ 32 ∷ comma ∷ 32 ∷ 66 ∷ []) ≡ (65 ∷ []) ∷ (66 ∷ []) ∷ []
unfolding split_csv_line scan trim
split_plain = refl

split_tab : split_csv_line (quote ∷ 65 ∷ comma ∷ quote ∷ 9 ∷ []) ≡ (65 ∷ comma ∷ []) ∷ [] ∷ []
unfolding split_csv_line scan trim
split_tab = refl

split_csv_line-line_of_example :
    split_csv_line (line_of company (site ∷ [])) ≡ map trim (company ∷ site ∷ [])
split_csv_line-line_of_example = split_csv_line-line_of company (site ∷ [])
