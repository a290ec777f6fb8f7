-- ===== src/Verification/Verify/Compare.antt =====
-- The comparisons of src/lib/verification/verify.ts: what the figures show where a saving is counted.
use aijoes_app.Prelude.{
  ℤ, pos, ◌+ℤ◌, ◌-ℤ◌, ltb_ℤ, ◌≡◌, refl, ◌∙◌, if◌then◌else◌, ◌⊎◌, inl, inr, Option, none, some,
  arith, int_laws, Bool-cases,
}
use aijoes_app.Verification.Baseline.{Baseline, BaselineKind}
use aijoes_app.Verification.Facts.{ConnectedFacts, LicenceFacts, FinancialFacts}
use aijoes_app.Verification.Verify.{
  Comparison, compare, both, licence_comparison, financial_comparison, total_spend,
}

-- Between two statements of a cost, it fell by the amount.
abbrev pub Fell : ℤ → ℤ → ℤ → Type 0
Fell before after by = before ≡ after +ℤ by

abbrev pub Saved : Baseline → ConnectedFacts → ℤ → Type 0
Saved b current v =
    ((b.kind ≡ BaselineKind.licence)
      × ((before : LicenceFacts) × (after : LicenceFacts) × (b.facts.licence ≡ some before)
          × (current.licence ≡ some after)
          × Fell before.annual_licence_cost_gbp after.annual_licence_cost_gbp v))
    ⊎ ((b.kind ≡ BaselineKind.financial)
        × ((before : FinancialFacts) × (after : FinancialFacts) × (b.facts.financial ≡ some before)
            × (current.financial ≡ some after)
            × (Fell (total_spend before.software_subscriptions)
                  (total_spend after.software_subscriptions) v
                ⊎ Fell (total_spend before.supplier_spend) (total_spend after.supplier_spend) v)))

Fell-of_difference : (a b : ℤ) → Fell a b (a -ℤ b)
Fell-of_difference a b = omega int_laws

both-cases :
    {A : Type 0} (f : A → A → Comparison) (o o' : Option A)
    → ((a : A) × (a' : A) × (o ≡ some a) × (o' ≡ some a') × (both f o o' ≡ some (f a a')))
      ⊎ ((both f o o' ≡ none) × ((o ≡ none) ⊎ (o' ≡ none)))
both-cases f none o' = inr (refl, inl refl)
both-cases f (some a) none = inr (refl, inr refl)
both-cases f (some a) (some a') = inl (a, a', refl, refl, refl)

kind-cases : (k : BaselineKind) → (k ≡ BaselineKind.licence) ⊎ (k ≡ BaselineKind.financial)
kind-cases k = ground arith

compare_of_kind :
    (b : Baseline) (current : ConnectedFacts) (k : BaselineKind)
    → (k ≡ BaselineKind.licence
        → compare b current k ≡ both licence_comparison b.facts.licence current.licence)
      × (k ≡ BaselineKind.financial
          → compare b current k
            ≡ both (financial_comparison b.captured_at) b.facts.financial current.financial)
unfolding compare
compare_of_kind b current k = (λ e. rw e refl, λ e. rw e refl)

either-Fell :
    (a a' c c' : ℤ)
    → let d = if ltb_ℤ (pos 0) (a -ℤ a') then a -ℤ a' else c -ℤ c' in Fell a a' d ⊎ Fell c c' d
either-Fell a a' c c' = elim (Bool-cases (ltb_ℤ (pos 0) (a -ℤ a'))) [
  | inl e ↦ rw e (inl (Fell-of_difference a a'))
  | inr e ↦ rw e (inr (Fell-of_difference c c'))
]

-- A comparison compares the two figures of the baseline's own kind, and its difference is the
-- amount by which the licence cost, or one of the software spend and the supplier spend, fell. It
-- is missing exactly when the baseline or the connected system lacks that figure.
pub compare-Saved :
    (b : Baseline) (current : ConnectedFacts)
    → ((c : Comparison) × (compare b current b.kind ≡ some c) × Saved b current c.delta)
      ⊎ ((compare b current b.kind ≡ none)
          × (((b.kind ≡ BaselineKind.licence)
                × ((b.facts.licence ≡ none) ⊎ (current.licence ≡ none)))
              ⊎ ((b.kind ≡ BaselineKind.financial)
                  × ((b.facts.financial ≡ none) ⊎ (current.financial ≡ none)))))
compare-Saved b current = elim (kind-cases b.kind) [
  | inl e ↦
      let same = (compare_of_kind b current b.kind).0 e in
      elim (both-cases licence_comparison b.facts.licence current.licence) [
        | inl (a, a', l, r, made) ↦
            inl
              (licence_comparison a a', same ∙ made, inl (e, (a, a', l, r, Fell-of_difference _ _)))
        | inr (gone, lacks) ↦ inr (same ∙ gone, inl (e, lacks))
      ]
  | inr e ↦
      let same = (compare_of_kind b current b.kind).1 e in
      elim (both-cases (financial_comparison b.captured_at) b.facts.financial current.financial) [
        | inl (a, a', l, r, made) ↦ inl (
          financial_comparison b.captured_at a a',
          same ∙ made,
          inr (e, (a, a', l, r, either-Fell _ _ _ _)),
        )
        | inr (gone, lacks) ↦ inr (same ∙ gone, inr (e, lacks))
      ]
]
