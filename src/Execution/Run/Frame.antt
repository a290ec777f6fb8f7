-- ===== src/Execution/Run/Frame.antt =====
-- The steps of `runExecution` in src/lib/execution/engine.ts that follow its loop, and the run as a
-- whole, by what they write.
use aijoes_app.Prelude.{
  ℕ, ℤ, true, false, ◌≡◌, ◌≢◌, refl, ap, Bool-cases, inl, inr, Option, none, some,
}
use aijoes_app.Benefits.Ledger
use aijoes_app.Benefits.Ledger.{Benefit, Update, advance_at_least, get_benefit_by_opportunity}
use aijoes_app.Benefits.Ledger.Stages.{advance_at_least-reaches}
use aijoes_app.Execution.Authorise.{advance_found}
use aijoes_app.Execution.Loop.{Work, worked_plan, runnable, is_rejected}
use aijoes_app.Execution.Run.{
  benefit_step, finish_run, run_execution, RunResult, started, work_on, update_opportunity_status,
  queue_verification,
}
use aijoes_app.Execution.Store.{
  Db, plan_not_found, not_authorised, adapter_rejected, Result, ok, err, ◌>>=◌, persist_plan,
  get_plan, found_or,
}
use aijoes_app.Execution.Task.{Adapter}
use aijoes_app.Execution.Types.{ExecutionPlan, PlanStatus}

-- The step returned a value, and left the plans and the invocations as they were.
abbrev pub Quiet : {A : Type 0} → Db → Result A × Db → Type 0
Quiet {A} db (r, db') =
    ((a : A) × (r ≡ ok a))
    × (db'.plans ≡ db.plans)
    × (db'.invoked ≡ db.invoked)
    × (db'.approvals ≡ db.approvals)

pub advance_found-Quiet :
    (tenant : ℕ) (found : Option Benefit) (stage : Ledger.BenefitStage) (u : Update) (now : ℕ)
    (db : Db)
    → stage ≢ Ledger.BenefitStage.verified
    → Quiet db (advance_found tenant found stage u now db)
advance_found-Quiet tenant none stage u now db h = ((none, refl), refl, refl, refl)
advance_found-Quiet tenant (some b) stage u now db h =
    elim (advance_at_least-reaches tenant db.benefits b stage u now) [
      | inl (next, rows, e, _, _, _, _, _) ↦ rw e ((some next, refl), refl, refl, refl)
      | inr (_, last, _) ↦ absurd (h last)
    ]

benefit_step-Quiet :
    (tenant : ℕ) (p : ExecutionPlan) (m : ℤ) (now : ℕ) (found : Option Benefit) (s : PlanStatus)
    (db : Db)
    → Quiet db (benefit_step tenant p m now found s db)
benefit_step-Quiet tenant p m now found PlanStatus.completed db =
    advance_found-Quiet tenant found _ _ now db (λ f. cc)
benefit_step-Quiet tenant p m now found PlanStatus.executing db =
    advance_found-Quiet tenant found _ _ now db (λ f. cc)
benefit_step-Quiet tenant p m now found PlanStatus.awaiting_approval db =
    advance_found-Quiet tenant found _ _ now db (λ f. cc)
benefit_step-Quiet tenant p m now found _ db = ((found, refl), refl, refl, refl)

-- The end of a run returns the plan that it was given, writes it, and touches no other plan and no
-- adapter.
pub finish_run-returns :
    (tenant user fresh now : ℕ) (p : ExecutionPlan) (w : Work) (db : Db)
    → let (r, db') = finish_run tenant user fresh now p w db in
      ((a : RunResult) × (r ≡ ok a) × (a.plan ≡ p) × (a.awaiting_approval ≡ w.awaiting))
      × (db'.plans ≡ (persist_plan tenant p db).plans)
      × (db'.invoked ≡ db.invoked)
unfolding finish_run persist_plan update_opportunity_status queue_verification
finish_run-returns tenant user fresh now p w db =
    let written = persist_plan tenant p db in
    let ((b, returned), plans, invoked, _) =
      benefit_step-Quiet tenant p w.measured now
        (get_benefit_by_opportunity tenant written.benefits p.opportunity_id) p.status written in
    rw (returned, ◌>>=◌) ((_, refl, refl, refl), plans, invoked)

module _ (adapters : ℕ → Option Adapter) (tenant plan user fresh fresh_job now : ℕ) (db : Db) where
  -- The database in which the loop starts.
  abbrev pub begun : ExecutionPlan → Db
  begun p = persist_plan tenant (started p) db

  abbrev pub work : ExecutionPlan → Work
  work p = work_on adapters tenant p fresh now (begun p)

  -- A run of a plan that is found and runnable, and of which no adapter rejects a task, returns the
  -- worked plan and writes it over whatever the table then holds for its id.
  pub run_execution-returns :
      (p : ExecutionPlan)
      → get_plan tenant db plan ≡ some p
      → runnable p.status ≡ true
      → is_rejected (work p).ending ≡ false
      → let (r, db') = run_execution adapters tenant plan user fresh fresh_job now db in
        let p' = worked_plan (started p) (work p) now in
        ((a : RunResult) × (r ≡ ok a) × (a.plan ≡ p') × (a.awaiting_approval ≡ (work p).awaiting))
        × (db'.plans ≡ (persist_plan tenant p' (work p).db).plans)
        × (db'.invoked ≡ (work p).db.invoked)
  unfolding run_execution
  run_execution-returns p found runs whole =
      rw (found, found_or, ◌>>=◌, runs, whole)
        (finish_run-returns tenant user fresh_job now (worked_plan (started p) (work p) now)
          (work p) (work p).db)

  -- Where an adapter rejected, the run throws and leaves the database as the loop did.
  pub run_execution-rejected :
      (p : ExecutionPlan)
      → get_plan tenant db plan ≡ some p
      → runnable p.status ≡ true
      → is_rejected (work p).ending ≡ true
      → run_execution adapters tenant plan user fresh fresh_job now db
        ≡ (err adapter_rejected, (work p).db)
  unfolding run_execution
  run_execution-rejected p found runs thrown = rw (found, found_or, ◌>>=◌, runs, thrown)

  -- Either way, what was invoked is what the loop invoked.
  pub run_execution-invoked :
      (p : ExecutionPlan)
      → get_plan tenant db plan ≡ some p
      → runnable p.status ≡ true
      → (run_execution adapters tenant plan user fresh fresh_job now db).1.invoked
        ≡ (work p).db.invoked
  run_execution-invoked p found runs = elim (Bool-cases (is_rejected (work p).ending)) [
    | inl thrown ↦ ap (λ x. x.1.invoked) (run_execution-rejected p found runs thrown)
    | inr whole ↦ let (_, _, made) = run_execution-returns p found runs whole in made
  ]

  -- A run of a plan that is not found, or not runnable, throws and changes nothing.
  pub run_execution-throws :
      ((get_plan tenant db plan ≡ none)
        → run_execution adapters tenant plan user fresh fresh_job now db
          ≡ (err (plan_not_found plan), db))
      × ((p : ExecutionPlan)
          → get_plan tenant db plan ≡ some p
          → runnable p.status ≡ false
          → run_execution adapters tenant plan user fresh fresh_job now db
            ≡ (err (not_authorised p.status), db))
  unfolding run_execution
  run_execution-throws = (λ e. rw (e, found_or, ◌>>=◌), λ p e n. rw (e, found_or, ◌>>=◌, n))
