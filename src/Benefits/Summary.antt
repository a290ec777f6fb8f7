-- ===== src/Benefits/Summary.antt =====
-- `summariseLedger` of src/lib/benefits/ledger.ts.
pub mod Sums
use aijoes_app.Prelude.{
  ℕ, ℤ, pos, ◌+ℤ◌, leb_ℤ, Bool, true, false, ◌≡◌, refl, ◌∙◌, List, [], ◌∷◌, map, arith, int_laws,
  Bool-cases, filter, leb, insert_by, sort_by, IsSorted, sort_by-IsSorted, inl, inr, ◌==◌,
  if◌then◌else◌,
}
use aijoes_app.Benefits.Ledger.{
  Benefit, BenefitStage, BenefitType, verified, realised, forecast, committed, revenue, saving,
  margin, mrr, arr, productivity, stage_index, stage_order,
}

-- `summariseLedger`. Realised values are whole pounds, since `runExecution` rounds what it measures
-- and no other code writes one but 0, so `Math.round` of their sums changes nothing.
abbrev pub headline : Benefit → ℤ
headline b = elim b.stage [
  | verified ↦ b.verified_value
  | realised ↦ b.realised_value
  | _ ↦ b.forecast_value
]

-- `benefits.reduce((s, b) => s + f(b), 0)`
unfoldable pub reduce_by {ℓ} : {A : Type ℓ} → (A → ℤ) → ℤ → List A → ℤ
reduce_by f acc [] = acc
reduce_by f acc (b ∷ bs) = reduce_by f (acc +ℤ f b) bs

-- `m[k] = (m[k] ?? 0) + v`, on the keys in the order in which they first came.
unfoldable pub add_to : ℕ → ℤ → List (ℕ × ℤ) → List (ℕ × ℤ)
add_to k v [] = (k, pos 0 +ℤ v) ∷ []
add_to k v ((j, w) ∷ m) = if j == k then (j, w +ℤ v) ∷ m else (j, w) ∷ add_to k v m

abbrev pub type_key : BenefitType → ℕ
type_key revenue = 0
type_key saving = 1
type_key margin = 2
type_key mrr = 3
type_key arr = 4
type_key productivity = 5

-- One round of the loop, for the three maps.
unfoldable pub add_capabilities : List ℕ → ℤ → List (ℕ × ℤ) → List (ℕ × ℤ)
add_capabilities [] v m = m
add_capabilities (c ∷ cs) v m = add_capabilities cs v (add_to c v m)

pub record Totals : Type 0 where
  pub by_stage : List (ℕ × ℤ)
  pub by_type : List (ℕ × ℤ)
  pub capability : List (ℕ × ℤ)

unfoldable pub tally : Totals → Benefit → Totals
tally t b = record {
  by_stage = add_to (stage_index b.stage) (headline b) t.by_stage;
  by_type = add_to (type_key b.type) (headline b) t.by_type;
  capability = add_capabilities b.attributed_capabilities b.realised_value t.capability;
}

unfoldable pub tally_all : Totals → List Benefit → Totals
tally_all t [] = t
tally_all t (b ∷ bs) = tally_all (tally t b) bs

abbrev pub zero_totals : Totals
zero_totals = record {
  by_stage = map (λ s. (stage_index s, pos 0)) stage_order;
  by_type = [];
  capability = [];
}

abbrev pub is_executing : BenefitStage → Bool
is_executing forecast = true
is_executing committed = true
is_executing _ = false

-- The comparator of the sort, `b.value - a.value`, is at most 0.
abbrev pub larger : ℕ × ℤ → ℕ × ℤ → Bool
larger a b = leb_ℤ b.1 a.1

pub record LedgerSummary : Type 0 where
  pub identified : ℤ
  pub approved : ℤ
  pub executing : ℤ
  pub realised : ℤ
  pub verified : ℤ
  pub by_stage : List (ℕ × ℤ)
  pub by_type : List (ℕ × ℤ)
  pub by_capability : List (ℕ × ℤ)

unfoldable pub summarise_ledger : List Benefit → LedgerSummary
summarise_ledger bs =
    let t = tally_all zero_totals bs in
    record {
      identified = reduce_by (λ b. b.forecast_value) (pos 0) bs;
      approved =
          reduce_by (λ b. b.forecast_value) (pos 0) (filter (λ b. leb 1 (stage_index b.stage)) bs);
      executing = reduce_by (λ b. b.forecast_value) (pos 0) (filter (λ b. is_executing b.stage) bs);
      realised = reduce_by (λ b. b.realised_value) (pos 0) bs;
      verified = reduce_by (λ b. b.verified_value) (pos 0) bs;
      by_stage = t.by_stage;
      by_type = t.by_type;
      by_capability = sort_by larger t.capability;
    }
