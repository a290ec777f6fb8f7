-- ===== src/Benefits/Ledger/Table.antt =====
-- The table of src/lib/benefits/ledger.ts: its invariant, and what a lookup finds after a write.
use aijoes_app.Prelude.{
  ℕ, pos, ◌≤ℤ◌, true, false, ◌≡◌, refl, sym, ◌∙◌, inl, inr, some, [], ◌∷◌, ◌++◌, map, arith, any,
  find?, In, In-of_map, In-of_append, map_option, find?-map_of, find?-eq_some, find?-append_of_some,
  any-In, Bool-cases, Option-cases, ◌==◌,
}
use aijoes_app.Benefits.Ledger.{
  Benefit, verified, BenefitRow, BenefitTable, has_id, rewrite, persist, for_opportunity,
  benefit_of, get_benefit_by_opportunity,
}

-- Rows are told apart by their ids, each id is that of the benefit it holds, and a benefit is
-- VERIFIED only with a positive verified value.
pub record IsValid (rows : BenefitTable) : Type 0 where
  pub distinct : (x y : BenefitRow) → In x rows → In y rows → x.row_id ≡ y.row_id → x ≡ y
  pub keyed : (x : BenefitRow) → In x rows → x.row_id ≡ x.benefit.id
  pub proved :
      (x : BenefitRow) → In x rows → x.benefit.stage ≡ verified → pos 1 ≤ℤ x.benefit.verified_value

pub empty-IsValid : IsValid []
empty-IsValid = record {
  distinct = λ x y m. absurd m;
  keyed = λ x m. absurd m;
  proved = λ x m. absurd m;
}

-- The row that a lookup found.
pub get-row :
    (tenant : ℕ) (rows : BenefitTable) (o : ℕ) (b : Benefit)
    → get_benefit_by_opportunity tenant rows o ≡ some b
    → (r : BenefitRow) × In r rows
      × (r.benefit ≡ b)
      × (find? (for_opportunity tenant o) rows ≡ some r)
unfolding get_benefit_by_opportunity
get-row tenant rows o b e = elim (Option-cases (find? (for_opportunity tenant o) rows)) [
  | inl n ↦ cc
  | inr (r, f) ↦ (r, (find?-eq_some (for_opportunity tenant o) r rows f).0, ground arith, f)
]

rewrite-row_id : (b : Benefit) (x : BenefitRow) → (rewrite b x).row_id ≡ x.row_id
rewrite-row_id b x = ground arith

rewrite-for_opportunity :
    (b : Benefit) (tenant o : ℕ) (x : BenefitRow)
    → for_opportunity tenant o (rewrite b x) ≡ for_opportunity tenant o x
rewrite-for_opportunity b tenant o x = elim (Bool-cases (x.row_id == b.id)) [
  | inl e ↦ rw e
  | inr e ↦ rw e
]

rewrite-IsValid :
    (b : Benefit) (rows : BenefitTable)
    → IsValid rows
    → (b.stage ≡ verified → pos 1 ≤ℤ b.verified_value)
    → IsValid (map (rewrite b) rows)
rewrite-IsValid b rows v h = record {
  distinct = λ x y mx my e.
      let (x', kx, ex) = In-of_map (rewrite b) x rows mx in
      let (y', ky, ey) = In-of_map (rewrite b) y rows my in
      let same =
        v.distinct x' y' kx ky (ground (arith, rewrite-row_id b x', rewrite-row_id b y')) in
      cc;
  keyed = λ x m.
      let (x', k, e) = In-of_map (rewrite b) x rows m in let known = v.keyed x' k in ground arith;
  proved = λ x m s.
      let (x', k, e) = In-of_map (rewrite b) x rows m in let known = v.proved x' k in ground arith;
}

appended-IsValid :
    (r : BenefitRow) (rows : BenefitTable)
    → IsValid rows
    → any (has_id r.row_id) rows ≡ false
    → r.row_id ≡ r.benefit.id
    → (r.benefit.stage ≡ verified → pos 1 ≤ℤ r.benefit.verified_value)
    → IsValid (rows ++ r ∷ [])
appended-IsValid r rows v fresh k h = record {
  distinct = λ x y mx my e. elim (In-of_append x rows _ mx) [
    | inl kx ↦ elim (In-of_append y rows _ my) [
      | inl ky ↦ v.distinct x y kx ky e
      | inr (inl q) ↦ absurd (stale x kx (e ∙ rw q))
      | inr (inr q) ↦ absurd q
    ]
    | inr (inl p) ↦ elim (In-of_append y rows _ my) [
      | inl ky ↦ absurd (stale y ky (sym e ∙ rw p))
      | inr (inl q) ↦ p ∙ sym q
      | inr (inr q) ↦ absurd q
    ]
    | inr (inr p) ↦ absurd p
  ];
  keyed = λ x m. elim (In-of_append x rows _ m) [
    | inl n ↦ v.keyed x n
    | inr (inl q) ↦ rw q k
    | inr (inr q) ↦ absurd q
  ];
  proved = λ x m s. elim (In-of_append x rows _ m) [
    | inl n ↦ v.proved x n s
    | inr (inl q) ↦ ground arith
    | inr (inr q) ↦ absurd q
  ];
}
  where
    stale : (x : BenefitRow) → In x rows → x.row_id ≡ r.row_id → ⊥
    stale x m e = ground (arith, any-In (has_id r.row_id) x rows m)

pub persist-IsValid :
    (tenant : ℕ) (rows : BenefitTable) (b : Benefit)
    → IsValid rows
    → (b.stage ≡ verified → pos 1 ≤ℤ b.verified_value)
    → IsValid (persist tenant rows b)
unfolding persist
persist-IsValid tenant rows b v h = elim (Bool-cases (any (has_id b.id) rows)) [
  | inl old ↦ rw old (rewrite-IsValid b rows v h)
  | inr new ↦ rw new (appended-IsValid _ rows v new refl h)
]

-- After a benefit that the table holds is written again, every lookup finds the row it found
-- before, with the new benefit if the ids agree.
pub get-persist_old :
    (tenant : ℕ) (rows : BenefitTable) (b : Benefit) (t o : ℕ)
    → any (has_id b.id) rows ≡ true
    → get_benefit_by_opportunity t (persist tenant rows b) o
      ≡ benefit_of (map_option (rewrite b) (find? (for_opportunity t o) rows))
unfolding persist get_benefit_by_opportunity
get-persist_old tenant rows b t o old =
    rw (old, find?-map_of (for_opportunity t o) (rewrite b) rows (rewrite-for_opportunity b t o))

-- A benefit with a new id hides none that was found before.
pub get-persist_new :
    (tenant : ℕ) (rows : BenefitTable) (b : Benefit) (t o : ℕ) {a : Benefit}
    → any (has_id b.id) rows ≡ false
    → get_benefit_by_opportunity t rows o ≡ some a
    → get_benefit_by_opportunity t (persist tenant rows b) o ≡ some a
unfolding persist get_benefit_by_opportunity
get-persist_new tenant rows b t o new e =
    let (r, m, same, f) = get-row t rows o _ e in
    rw (new, find?-append_of_some (for_opportunity t o) rows _ r f, same)
