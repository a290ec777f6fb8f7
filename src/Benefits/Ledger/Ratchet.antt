-- ===== src/Benefits/Ledger/Ratchet.antt =====
-- The operations of src/lib/benefits/ledger.ts as steps, and the stages over a sequence of them.
use aijoes_app.Prelude.{
  ◌⊎◌, ℕ, ◌≤◌, pos, ◌≤ℤ◌, true, false, ◌≡◌, refl, ◌∙◌, inl, inr, Option, none, some, arith, any,
  find?, In, map_option, any-In, Bool-cases, Option-cases, find?-eq_some, ◌==◌, leb,
}
use aijoes_app.Benefits.Ledger.{
  Benefit, BenefitInput, BenefitStage, verified, stage_index, BenefitRow, BenefitTable, has_id,
  rewrite, persist, for_opportunity, benefit_of, get_benefit_by_opportunity, create_benefit, Update,
  ok, advance, advance_at_least, advanced, is_theoretical,
}
use aijoes_app.Benefits.Ledger.Table.{
  IsValid, get-row, persist-IsValid, get-persist_old, get-persist_new,
}
use aijoes_app.Benefits.Ledger.Stages.{advance-branches}

-- The benefit that was found is still found, under its id and at the same stage or a later one.
abbrev pub Grows : Option Benefit → Option Benefit → Type 0
Grows none after = Unit
Grows (some a) none = ⊥
Grows (some a) (some b) = (a.id ≡ b.id) × (stage_index a.stage ≤ stage_index b.stage)

Grows-refl : (o : Option Benefit) → Grows o o
Grows-refl none = tt
Grows-refl (some b) = (refl, omega arith)

Grows-trans : (o p q : Option Benefit) → Grows o p → Grows p q → Grows o q
Grows-trans none p q h k = tt
Grows-trans (some a) none q h k = absurd h
Grows-trans (some a) (some b) none h k = absurd k
Grows-trans (some a) (some b) (some c) h k = (h.0 ∙ k.0, omega arith)

pub data Step (rows rows' : BenefitTable) : Type 0 where
  create :
      (tenant : ℕ) (input : BenefitInput) (fresh now : ℕ)
      → any (has_id fresh) rows ≡ false
      → rows' ≡ (create_benefit tenant rows input fresh now).1
      → Step rows rows'
  forward :
      (tenant o : ℕ) (b next : Benefit) (stage : BenefitStage) (u : Update) (now : ℕ)
      → get_benefit_by_opportunity tenant rows o ≡ some b
      → advance tenant rows b stage u now ≡ ok (next, rows')
      → Step rows rows'
  at_least :
      (tenant o : ℕ) (b next : Benefit) (stage : BenefitStage) (u : Update) (now : ℕ)
      → get_benefit_by_opportunity tenant rows o ≡ some b
      → advance_at_least tenant rows b stage u now ≡ ok (next, rows')
      → Step rows rows'

pub data Steps (rows : BenefitTable) : BenefitTable → Type 0 where
  here : Steps rows rows
  snoc : {mid rows' : BenefitTable} → Steps rows mid → Step mid rows' → Steps rows rows'

-- The inputs that a step, or a sequence of steps, opens benefits with.
abbrev pub OpenedBy : {rows rows' : BenefitTable} → Step rows rows' → BenefitInput → Type 0
OpenedBy (create tenant input' fresh now unused e) input = input' ≡ input
OpenedBy (forward tenant o b next stage u now e r) input = ⊥
OpenedBy (at_least tenant o b next stage u now e r) input = ⊥

abbrev pub Opened : {rows rows' : BenefitTable} → Steps rows rows' → BenefitInput → Type 0
Opened here input = ⊥
Opened (snoc ss s) input = Opened ss input ⊎ OpenedBy s input

-- An input that opens a benefit as VERIFIED has a positive verified value.
abbrev pub IsProved : BenefitInput → Type 0
IsProved input = input.stage ≡ verified → pos 1 ≤ℤ input.verified_value

-- What one operation keeps.
abbrev Keeps : BenefitTable → BenefitTable → Type 0
Keeps rows rows' =
    IsValid rows'
    × ((t o : ℕ)
        → Grows (get_benefit_by_opportunity t rows o) (get_benefit_by_opportunity t rows' o))

module _ (rows : BenefitTable) (v : IsValid rows) where
  -- Rewriting the row of one benefit at a later stage lets whatever a lookup finds grow.
  rewrite-Grows :
      (r : BenefitRow) (next : Benefit)
      → In r rows
      → r.row_id ≡ next.id
      → stage_index r.benefit.stage ≤ stage_index next.stage
      → (x : Option BenefitRow) → ((y : BenefitRow) → x ≡ some y → In y rows)
      → Grows (benefit_of x) (benefit_of (map_option (rewrite next) x))
  rewrite-Grows r next listed keyed later none found = tt
  rewrite-Grows r next listed keyed later (some y) found = elim (Bool-cases (y.row_id == next.id)) [
    | inl e ↦
        let same : y ≡ r = v.distinct y r (found y refl) listed (ground arith) in
        let own = v.keyed y (found y refl) in rw e (ground arith, ground arith)
    | inr e ↦ rw e (refl, omega arith)
  ]

  -- A benefit of the table is written again at the same stage or a later one.
  persist_over :
      (tenant o source : ℕ) (b next : Benefit)
      → get_benefit_by_opportunity source rows o ≡ some b
      → next.id ≡ b.id
      → stage_index b.stage ≤ stage_index next.stage
      → (next.stage ≡ verified → pos 1 ≤ℤ next.verified_value)
      → Keeps rows (persist tenant rows next)
  unfolding get_benefit_by_opportunity
  persist_over tenant o source b next e same later proved =
      let (r, listed, holds, found) = get-row source rows o b e in
      let keyed : r.row_id ≡ next.id = (let own = v.keyed r listed in ground arith) in
      let old : any (has_id next.id) rows ≡ true =
        any-In (has_id next.id) r rows listed (ground arith) in
      (
        persist-IsValid tenant rows next v proved,
        λ t p. rw (get-persist_old tenant rows next t p old) (
            rewrite-Grows r next listed keyed (ground arith) (find? (for_opportunity t p) rows)
              (λ y f. (find?-eq_some (for_opportunity t p) y rows f).0)),
      )

  -- A benefit is opened under a fresh id.
  persist_fresh :
      (tenant : ℕ) (b : Benefit)
      → any (has_id b.id) rows ≡ false
      → (b.stage ≡ verified → pos 1 ≤ℤ b.verified_value)
      → Keeps rows (persist tenant rows b)
  persist_fresh tenant b fresh proved = (
    persist-IsValid tenant rows b v proved,
    λ t p. elim (Option-cases (get_benefit_by_opportunity t rows p)) [
      | inl e ↦ rw e tt
      | inr (a, e) ↦ rw (e, get-persist_new tenant rows b t p fresh e) (refl, omega arith)
    ],
  )

  Keeps-refl : Keeps rows rows
  Keeps-refl = (v, λ t p. Grows-refl _)

  create-Keeps :
      (tenant : ℕ) (input : BenefitInput) (fresh now : ℕ)
      → any (has_id fresh) rows ≡ false
      → (input.stage ≡ verified → pos 1 ≤ℤ input.verified_value)
      → Keeps rows (create_benefit tenant rows input fresh now).1
  unfolding create_benefit
  create-Keeps tenant input fresh now unused proved =
      elim (Option-cases (get_benefit_by_opportunity tenant rows input.opportunity_id)) [
        | inl e ↦ rw e (persist_fresh tenant _ unused proved)
        | inr (old, e) ↦ rw e (elim (Bool-cases (is_theoretical old.stage)) [
          | inl first ↦ rw first (
              persist_over tenant input.opportunity_id tenant old _ e refl
                (first_stage old.stage input.stage first) proved)
          | inr moved ↦ rw moved Keeps-refl
        ])
      ]
    where
      first_stage : (s t : BenefitStage) → is_theoretical s ≡ true → stage_index s ≤ stage_index t
      first_stage s t h = ground arith

  advance-Keeps :
      (tenant o : ℕ) (b next : Benefit) (stage : BenefitStage) (u : Update) (now : ℕ)
      (rows' : BenefitTable)
      → get_benefit_by_opportunity tenant rows o ≡ some b
      → advance tenant rows b stage u now ≡ ok (next, rows')
      → Keeps rows rows'
  advance-Keeps tenant o b next stage u now rows' e r =
      elim (advance-branches tenant rows b stage u now) [
        | inl (good, later, proved) ↦
            let written : rows' ≡ persist tenant rows (advanced b stage u now) = (ground (arith)) in
            rw written (persist_over tenant o tenant b (advanced b stage u now) e refl later proved)
        | inr (inl (bad, _)) ↦ absurd (ground arith)
        | inr (inr (bad, _, _)) ↦ absurd (ground arith)
      ]

Step-Keeps :
    {rows rows' : BenefitTable}
    → IsValid rows
    → (s : Step rows rows') → ((input : BenefitInput) → OpenedBy s input → IsProved input)
    → Keeps rows rows'
unfolding advance_at_least
Step-Keeps {rows} v (create tenant input fresh now unused e) proved =
    rw e (create-Keeps rows v tenant input fresh now unused (proved input refl))
Step-Keeps {rows} v (forward tenant o b next stage u now e r) proved =
    advance-Keeps rows v tenant o b next stage u now _ e r
Step-Keeps {rows} {rows'} v (at_least tenant o b next stage u now e r) proved =
    elim (Bool-cases (leb (stage_index stage) (stage_index b.stage))) [
      | inl there ↦ let same : rows' ≡ rows = ground arith in rw same (Keeps-refl rows v)
      | inr behind ↦ advance-Keeps rows v tenant o b next stage u now _ e (rw behind at r)
    ]

-- From a valid table, any sequence of ledger operations (opening or refreshing a benefit under a
-- fresh id, advancing a benefit that was just looked up), in which no benefit is opened as VERIFIED
-- without a positive verified value, leaves a valid table, and every benefit that could be found for
-- a tenant and an opportunity is found there still, with the same id and a stage that is no earlier.
pub Steps-Grows :
    {rows rows' : BenefitTable}
    → IsValid rows
    → (ss : Steps rows rows') → ((input : BenefitInput) → Opened ss input → IsProved input)
    → IsValid rows'
      × ((t o : ℕ)
          → Grows (get_benefit_by_opportunity t rows o) (get_benefit_by_opportunity t rows' o))
Steps-Grows v here proved = (v, λ t o. Grows-refl _)
Steps-Grows v (snoc ss s) proved =
    let (v', g) = Steps-Grows v ss (λ i o. proved i (inl o)) in
    let (v'', g') = Step-Keeps v' s (λ i o. proved i (inr o)) in
    (v'', λ t o. Grows-trans _ _ _ (g t o) (g' t o))
