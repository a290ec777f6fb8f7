-- ===== src/Execution/Store/Plans.antt =====
-- Reading a plan back after `persistPlan` of src/lib/execution/engine.ts wrote it.
use aijoes_app.Prelude.{
  ℕ, true, ◌≡◌, refl, some, arith, any, find?, any-In, find?-map_of, find?-eq_some, inl, inr,
  Bool-cases, Option-cases, ◌==◌,
}
use aijoes_app.Execution.Types.{ExecutionPlan}
use aijoes_app.Execution.Store.{Db, PlanRow, persist_plan, get_plan, is_plan, rewrite_plan}

rewrite_plan-is_plan :
    (p : ExecutionPlan) (tenant plan : ℕ) (r : PlanRow)
    → is_plan tenant plan (rewrite_plan p r) ≡ is_plan tenant plan r
rewrite_plan-is_plan p tenant plan r = elim (Bool-cases (r.row_id == p.id)) [
  | inl e ↦ rw e
  | inr e ↦ rw e
]

-- Once a plan can be found, what is written under its id is what is found.
pub get_plan-persist_plan :
    (tenant writer : ℕ) (db : Db) (plan : ℕ) (p q : ExecutionPlan)
    → get_plan tenant db plan ≡ some q
    → p.id ≡ plan
    → get_plan tenant (persist_plan writer p db) plan ≡ some p
unfolding get_plan persist_plan
get_plan-persist_plan tenant writer db plan p q found same =
    elim (Option-cases (find? (is_plan tenant plan) db.plans)) [
      | inl e ↦ absurd (ground arith)
      | inr (r, e) ↦
          let (listed, fits) = find?-eq_some (is_plan tenant plan) r db.plans e in
          let known : any (λ x. x.row_id == p.id) db.plans ≡ true =
            any-In (λ x. x.row_id == p.id) r db.plans listed (ground arith) in
          let own : (r.row_id == p.id) ≡ true = ground arith in
          rw
            (
              known,
              find?-map_of (is_plan tenant plan) (rewrite_plan p) db.plans
                  (rewrite_plan-is_plan p tenant plan),
              e,
              own,
            )
            refl
    ]

-- Only the table of plans decides what is found.
pub get_plan_of_plans :
    (tenant : ℕ) (db db' : Db) (plan : ℕ)
    → db'.plans ≡ db.plans
    → get_plan tenant db' plan ≡ get_plan tenant db plan
unfolding get_plan
get_plan_of_plans tenant db db' plan e = rw e
