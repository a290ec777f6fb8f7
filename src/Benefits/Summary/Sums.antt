-- ===== src/Benefits/Summary/Sums.antt =====
-- The sums that `summariseLedger` of src/lib/benefits/ledger.ts comes to.
use aijoes_app.Prelude.{
  ℕ, ℤ, pos, ◌+ℤ◌, Bool, ◌≡◌, refl, ◌∙◌, List, [], ◌∷◌, arith, int_laws, Bool-cases, filter, leb,
  insert_by, sort_by, IsSorted, sort_by-IsSorted, inl, inr, ◌==◌, if◌then◌else◌,
}
use aijoes_app.Benefits.Ledger.{Benefit, BenefitStage, verified, realised, stage_index}
use aijoes_app.Benefits.Summary.{
  headline, reduce_by, add_to, type_key, add_capabilities, Totals, tally, tally_all, zero_totals,
  larger, summarise_ledger,
}

-- The sum as a plain recursion.
abbrev pub sum_of {ℓ} : {A : Type ℓ} → (A → ℤ) → List A → ℤ
sum_of f [] = pos 0
sum_of f (b ∷ bs) = f b +ℤ sum_of f bs

reduce_by-sum_of {ℓ} :
    {A : Type ℓ} (f : A → ℤ) (acc : ℤ) (bs : List A) → reduce_by f acc bs ≡ acc +ℤ sum_of f bs
unfolding reduce_by
reduce_by-sum_of f acc [] = omega int_laws
reduce_by-sum_of f acc (b ∷ bs) = rw (reduce_by-sum_of f (acc +ℤ f b) bs) (omega int_laws)

-- What a map holds at a key.
abbrev pub value_at : ℕ → List (ℕ × ℤ) → ℤ
value_at q m = sum_of (λ e. if e.0 == q then e.1 else pos 0) m

-- The part of a value that belongs to a key.
abbrev pub part : ℕ → ℕ → ℤ → ℤ
part q k v = if k == q then v else pos 0

add_to-value_at :
    (q k : ℕ) (v : ℤ) (m : List (ℕ × ℤ)) → value_at q (add_to k v m) ≡ value_at q m +ℤ part q k v
unfolding add_to
add_to-value_at q k v [] = elim (Bool-cases (k == q)) [
  | inl e ↦ rw e (omega int_laws)
  | inr e ↦ rw e (omega int_laws)
]
add_to-value_at q k v ((j, w) ∷ m) = elim (Bool-cases (j == k)) [
  | inl e ↦
      let same : j ≡ k = ground arith in
      rw (e, same)
        (elim (Bool-cases (k == q)) [
          | inl h ↦ rw h (omega int_laws)
          | inr h ↦ rw h (omega int_laws)
        ])
  | inr e ↦ rw e (rw (add_to-value_at q k v m) (omega int_laws))
]

add_capabilities-value_at :
    (q : ℕ) (cs : List ℕ) (v : ℤ) (m : List (ℕ × ℤ))
    → value_at q (add_capabilities cs v m) ≡ value_at q m +ℤ sum_of (λ c. part q c v) cs
unfolding add_capabilities
add_capabilities-value_at q [] v m = omega int_laws
add_capabilities-value_at q (c ∷ cs) v m =
    rw (add_capabilities-value_at q cs v (add_to c v m), add_to-value_at q c v m) (omega int_laws)

-- The value that a benefit is shown at: verified once it is, realised once it is, or forecast.
abbrev pub shown : Benefit → ℤ
shown b =
    if stage_index b.stage == 5
    then b.verified_value
    else if stage_index b.stage == 4
    then b.realised_value
    else b.forecast_value

headline-shown : (b : Benefit) → headline b ≡ shown b
headline-shown b = by_stage b.stage
  where
    by_stage :
        (t : BenefitStage)
        → (elim t [
          | verified ↦ b.verified_value
          | realised ↦ b.realised_value
          | _ ↦ b.forecast_value
        ])
          ≡ (if stage_index t == 5
              then b.verified_value
              else if stage_index t == 4
              then b.realised_value
              else b.forecast_value)
    by_stage verified = refl
    by_stage realised = refl
    by_stage _ = refl

-- What a benefit adds to a stage, to a type and to a capability.
abbrev pub at_stage : ℕ → Benefit → ℤ
at_stage q b = part q (stage_index b.stage) (shown b)

abbrev pub at_type : ℕ → Benefit → ℤ
at_type q b = part q (type_key b.type) (shown b)

abbrev pub at_capability : ℕ → Benefit → ℤ
at_capability q b = sum_of (λ c. part q c b.realised_value) b.attributed_capabilities

tally_all-value_at :
    (q : ℕ) (t : Totals) (bs : List Benefit)
    → (value_at q (tally_all t bs).by_stage ≡ value_at q t.by_stage +ℤ sum_of (at_stage q) bs)
      × (value_at q (tally_all t bs).by_type ≡ value_at q t.by_type +ℤ sum_of (at_type q) bs)
      × (value_at q (tally_all t bs).capability
          ≡ value_at q t.capability +ℤ sum_of (at_capability q) bs)
unfolding tally_all tally
tally_all-value_at q t [] = (omega int_laws, omega int_laws, omega int_laws)
tally_all-value_at q t (b ∷ bs) =
    let (s, y, c) = tally_all-value_at q (tally t b) bs in
    (
      s
          ∙ rw (add_to-value_at q (stage_index b.stage) (headline b) t.by_stage, headline-shown b)
              (omega int_laws),
      y
          ∙ rw (add_to-value_at q (type_key b.type) (headline b) t.by_type, headline-shown b)
              (omega int_laws),
      c
          ∙ rw (add_capabilities-value_at q b.attributed_capabilities b.realised_value t.capability)
              (omega int_laws),
    )

insert_by-value_at :
    (q : ℕ) (e : ℕ × ℤ) (m : List (ℕ × ℤ))
    → value_at q (insert_by larger e m) ≡ part q e.0 e.1 +ℤ value_at q m
insert_by-value_at q e [] = refl
insert_by-value_at q e (d ∷ m) = elim (Bool-cases (larger e d)) [
  | inl t ↦ rw t
  | inr f ↦ rw f (rw (insert_by-value_at q e m) (omega int_laws))
]

sort_by-value_at : (q : ℕ) (m : List (ℕ × ℤ)) → value_at q (sort_by larger m) ≡ value_at q m
sort_by-value_at q [] = refl
sort_by-value_at q (e ∷ m) = rw (insert_by-value_at q e (sort_by larger m), sort_by-value_at q m)

part_zero : (q k : ℕ) → part q k (pos 0) ≡ pos 0
part_zero q k = elim (Bool-cases (k == q)) [ inl e ↦ rw e | inr e ↦ rw e ]

-- At the start every key has nothing.
zero-value_at : (q : ℕ) → value_at q zero_totals.by_stage ≡ pos 0
zero-value_at q =
    rw (part_zero q 0, part_zero q 1, part_zero q 2, part_zero q 3, part_zero q 4, part_zero q 5)
      (omega int_laws)

sum_of-filter :
    {A : Type 0} (f : A → ℤ) (p : A → Bool) (xs : List A)
    → sum_of f (filter p xs) ≡ sum_of (λ x. if p x then f x else pos 0) xs
sum_of-filter f p [] = refl
sum_of-filter f p (x ∷ xs) = elim (Bool-cases (p x)) [
  | inl e ↦ rw (e, sum_of-filter f p xs)
  | inr e ↦ rw (e, sum_of-filter f p xs) (omega int_laws)
]

-- At each stage and each type the summary holds the sum of what the benefits of that stage or type
-- are shown at; at each capability, the realised value of each benefit once per time that it is
-- attributed to it, the largest value first. The totals are the forecasts of all benefits and of
-- those past THEORETICAL, and the realised and the verified values of all.
pub summarise_ledger-totals :
    (bs : List Benefit) (q : ℕ)
    → let s = summarise_ledger bs in
      (value_at q s.by_stage ≡ sum_of (at_stage q) bs)
      × (value_at q s.by_type ≡ sum_of (at_type q) bs)
      × (value_at q s.by_capability ≡ sum_of (at_capability q) bs)
      × IsSorted larger s.by_capability
      × (s.identified ≡ sum_of (λ b. b.forecast_value) bs)
      × (s.approved
          ≡ sum_of (λ b. if leb 1 (stage_index b.stage) then b.forecast_value else pos 0) bs)
      × (s.realised ≡ sum_of (λ b. b.realised_value) bs)
      × (s.verified ≡ sum_of (λ b. b.verified_value) bs)
unfolding summarise_ledger
summarise_ledger-totals bs q =
    let (s, y, c) = tally_all-value_at q zero_totals bs in
    (
      s ∙ rw (zero-value_at q) (omega int_laws),
      y ∙ omega int_laws,
      sort_by-value_at q _ ∙ c ∙ omega int_laws,
      sort_by-IsSorted larger (λ a b h. ground arith) (λ a b d h k. ground arith)
          (tally_all zero_totals bs).capability,
      reduced (λ b. b.forecast_value) bs,
      reduced (λ b. b.forecast_value) (filter (λ b. leb 1 (stage_index b.stage)) bs)
          ∙ sum_of-filter (λ b. b.forecast_value) (λ b. leb 1 (stage_index b.stage)) bs,
      reduced (λ b. b.realised_value) bs,
      reduced (λ b. b.verified_value) bs,
    )
  where
    reduced : (f : Benefit → ℤ) (bs : List Benefit) → reduce_by f (pos 0) bs ≡ sum_of f bs
    reduced f bs = reduce_by-sum_of f (pos 0) bs ∙ omega int_laws
