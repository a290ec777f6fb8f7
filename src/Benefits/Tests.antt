-- ===== src/Benefits/Tests.antt =====
-- Runs of the ledger at concrete benefits, and instances of its theorems.
use aijoes_app.Prelude.{
  leb, if◌then◌else◌, inl, inr, ap, ◌∙◌, ℕ, pos, ◌≡◌, refl, some, none, [], ◌∷◌, IsSorted, ◌+ℤ◌,
}
use aijoes_app.Benefits.Ledger.{
  stage_index, Benefit, BenefitInput, BenefitTable, saving, verified, theoretical, approved,
  realised, create_benefit, get_benefit_by_opportunity, advance, advance_at_least, persist, Update,
  no_update, ok, err, backwards, unique,
}
use aijoes_app.Benefits.Ledger.Table.{IsValid, empty-IsValid}
use aijoes_app.Benefits.Ledger.Ratchet.{Grows, Step, Steps, Steps-Grows, Opened, IsProved}
use aijoes_app.Benefits.Summary.Sums.{
  at_stage, at_type, at_capability, value_at, sum_of, summarise_ledger-totals,
}
use aijoes_app.Benefits.Summary.{
  larger, summarise_ledger, reduce_by, tally_all, tally, add_to, add_capabilities,
}

abbrev saving_input : BenefitInput
saving_input = record {
  company_id = 5;
  opportunity_id = 6;
  type = saving;
  stage = theoretical;
  forecast_value = pos 900;
  realised_value = pos 0;
  verified_value = pos 0;
  measurement_period = none;
  baseline = none;
  measurement_method = 1;
  evidence = [];
  confidence = 40;
  attributed_capabilities = [];
}

ledger : Unit {0}
unfolding create_benefit get_benefit_by_opportunity persist advance advance_at_least unique
ledger = tt

abbrev opened_benefit : Benefit
opened_benefit = record {
  id = 7;
  tenant_id = 1;
  company_id = 5;
  opportunity_id = 6;
  type = saving;
  stage = theoretical;
  forecast_value = pos 900;
  realised_value = pos 0;
  verified_value = pos 0;
  measurement_period = none;
  baseline = none;
  measurement_method = 1;
  evidence = [];
  confidence = 40;
  attributed_capabilities = [];
  created_at = 30;
  updated_at = 30;
}

abbrev opened_rows : BenefitTable
opened_rows =
    record {
      row_id = 7;
      tenant_id = 1;
      company_id = 5;
      opportunity_id = 6;
      benefit = opened_benefit;
    }
    ∷ []

create_run : create_benefit 1 [] saving_input 7 30 ≡ (opened_benefit, opened_rows)
unfolding ledger
create_run = refl

-- Skipping stages is allowed, going back is not.
abbrev delivered : Update
delivered = record no_update {
  realised_value = some (pos 800);
  attributed_capabilities = some (3 ∷ 4 ∷ 3 ∷ []);
}

abbrev realised_benefit : Benefit
realised_benefit = record opened_benefit {
  stage = realised;
  realised_value = pos 800;
  attributed_capabilities = 3 ∷ 4 ∷ [];
  updated_at = 31;
}

abbrev realised_rows : BenefitTable
realised_rows =
    record {
      row_id = 7;
      tenant_id = 1;
      company_id = 5;
      opportunity_id = 6;
      benefit = realised_benefit;
    }
    ∷ []

advance_run :
    advance 1 opened_rows opened_benefit realised delivered 31
    ≡ ok (realised_benefit, realised_rows)
unfolding ledger
advance_run = refl

backwards_run :
    advance 1 realised_rows realised_benefit approved no_update 32
    ≡ err (backwards realised approved)
unfolding ledger
backwards_run = refl

opened-then-realised : Steps [] realised_rows
unfolding ledger
opened-then-realised =
    Steps.snoc (Steps.snoc Steps.here (Step.create 1 saving_input 7 30 refl refl))
      (Step.forward 1 6 opened_benefit realised_benefit realised delivered 31 refl advance_run)

only_saving : (input : BenefitInput) → Opened opened-then-realised input → IsProved input
unfolding opened-then-realised
only_saving input (inl (inl none_left)) = absurd none_left
only_saving input (inl (inr e)) = λ h. absurd (not_verified (ap (λ i. i.stage) e ∙ h))
  where
    not_verified : theoretical ≡ verified → ⊥
    not_verified k = cc
only_saving input (inr none_left) = absurd none_left

Steps-Grows_example :
    IsValid realised_rows
    × ((t o : ℕ)
        → Grows (get_benefit_by_opportunity t [] o) (get_benefit_by_opportunity t realised_rows o))
Steps-Grows_example = Steps-Grows empty-IsValid opened-then-realised only_saving

summarise_run :
    (summarise_ledger (realised_benefit ∷ opened_benefit ∷ [])).by_capability
    ≡ (3, pos 800) ∷ (4, pos 800) ∷ []
unfolding ◌+ℤ◌ summarise_ledger reduce_by tally_all tally add_to add_capabilities
summarise_run = refl

summarise_ledger-totals_example :
    let bs = realised_benefit ∷ opened_benefit ∷ [] in
    let s = summarise_ledger bs in
    (value_at 4 s.by_stage ≡ sum_of (at_stage 4) bs)
    × (value_at 4 s.by_type ≡ sum_of (at_type 4) bs)
    × (value_at 4 s.by_capability ≡ sum_of (at_capability 4) bs)
    × IsSorted larger s.by_capability
    × (s.identified ≡ sum_of (λ b. b.forecast_value) bs)
    × (s.approved
        ≡ sum_of (λ b. if leb 1 (stage_index b.stage) then b.forecast_value else pos 0) bs)
    × (s.realised ≡ sum_of (λ b. b.realised_value) bs)
    × (s.verified ≡ sum_of (λ b. b.verified_value) bs)
summarise_ledger-totals_example = summarise_ledger-totals (realised_benefit ∷ opened_benefit ∷ []) 4
