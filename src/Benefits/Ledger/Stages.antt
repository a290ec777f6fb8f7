-- ===== src/Benefits/Ledger/Stages.antt =====
-- `advance` and `advanceAtLeast` of src/lib/benefits/ledger.ts: when they succeed and what they write.
use aijoes_app.Prelude.{
  ℕ, ◌≤◌, ◌<◌, pos, ◌≤ℤ◌, not, ◌≡◌, refl, ◌⊎◌, inl, inr, ◌↔◌, get_or, List, [], ◌∷◌, arith, In,
  In-of_filter, In-filter, ◌==◌, Bool-cases, leb,
}
use aijoes_app.Benefits.Ledger.{
  Benefit, BenefitStage, verified, stage_index, BenefitTable, Update, Result, ok, err, backwards,
  unverified, advance, advance_at_least, advanced, persist, unique,
}

-- Success, with the value of the call.
abbrev pub Advances : BenefitTable → Result (Benefit × BenefitTable) → Type 0
Advances rows (ok _) = Unit
Advances rows (err _) = ⊥

-- `advance` succeeds exactly when the stage does not go back and, for VERIFIED, the verified value
-- that the benefit will have is positive; it then writes the benefit at the new stage, and
-- otherwise it throws the error that says which of the two failed.
pub advance-branches :
    (tenant : ℕ) (rows : BenefitTable) (b : Benefit) (stage : BenefitStage) (u : Update) (now : ℕ)
    → let next = advanced b stage u now in
      let r = advance tenant rows b stage u now in
      ((r ≡ ok (next, persist tenant rows next))
        × (stage_index b.stage ≤ stage_index stage)
        × (stage ≡ verified → pos 1 ≤ℤ next.verified_value))
      ⊎ ((r ≡ err (backwards b.stage stage)) × (stage_index stage < stage_index b.stage))
      ⊎ ((r ≡ err unverified) × (stage ≡ verified) × (next.verified_value ≤ℤ pos 0))
unfolding advance
advance-branches tenant rows b stage u now = ground arith

-- `advanceAtLeast` throws only for VERIFIED without a positive value, and its result has reached
-- the stage and is never behind the benefit it was given.
pub advance_at_least-reaches :
    (tenant : ℕ) (rows : BenefitTable) (b : Benefit) (stage : BenefitStage) (u : Update) (now : ℕ)
    → ((next : Benefit) × (rows' : BenefitTable) × (advance_at_least tenant rows b stage u now
          ≡ ok (next, rows'))
        × (stage_index stage ≤ stage_index next.stage)
        × (stage_index b.stage ≤ stage_index next.stage)
        × (next.id ≡ b.id)
        × (next.tenant_id ≡ b.tenant_id)
        × (next.opportunity_id ≡ b.opportunity_id))
      ⊎ ((advance_at_least tenant rows b stage u now ≡ err unverified)
          × (stage ≡ verified)
          × (get_or u.verified_value b.verified_value ≤ℤ pos 0))
unfolding advance_at_least
advance_at_least-reaches tenant rows b stage u now =
    elim (Bool-cases (leb (stage_index stage) (stage_index b.stage))) [
      | inl there ↦ rw there (inl (b, rows, refl, ground arith, omega arith, refl, refl, refl))
      | inr behind ↦ rw behind (elim (advance-branches tenant rows b stage u now) [
        | inl (good, later, proved) ↦
            inl (advanced b stage u now, _, good, omega arith, later, refl, refl, refl)
        | inr (inl (bad, early)) ↦ absurd (ground arith)
        | inr (inr (bad, last, none_yet)) ↦ inr (bad, last, none_yet)
      ])
    ]

unique-In_iff : (a : ℕ) (xs : List ℕ) → In a (unique xs) ↔ In a xs
unfolding unique
unique-In_iff a [] = (λ m. m, λ m. m)
unique-In_iff a (x ∷ xs) = (
  λ m. ground (arith, In-of_filter (λ y. not (y == x)) a (unique xs), (unique-In_iff a xs).0),
  λ m. ground (arith, In-filter (λ y. not (y == x)) a (unique xs), (unique-In_iff a xs).1),
)
