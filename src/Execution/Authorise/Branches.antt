-- ===== src/Execution/Authorise/Branches.antt =====
-- Every branch of `authorisePlan` of src/lib/execution/engine.ts.
use aijoes_app.Prelude.{
  ◌≢◌, ◌⊎◌, inl, inr, ap, Bool-cases, arith, ℕ, true, false, ◌≡◌, refl, ◌∙◌, Option, none, some,
  get_or, List, [], ◌∷◌, ◌++◌,
}
use aijoes_app.Benefits.Ledger
use aijoes_app.Benefits.Ledger.{no_update, get_benefit_by_opportunity}
use aijoes_app.Execution.Authorise.{
  authorise_plan, commit_authorisation, authorised_plan, authorisation, has_blockers,
  is_awaiting_authorisation, note_baseline, advance_found,
}
use aijoes_app.Execution.Run.Frame.{Quiet, advance_found-Quiet}
use aijoes_app.Execution.Run.Safety.{IsRunnable}
use aijoes_app.Execution.Store.{
  Db, Decision, plan_authorised, plan_not_found, blocked, not_awaiting_authorisation, ok, err,
  found_or, ◌>>=◌, persist_plan, get_plan,
}
use aijoes_app.Execution.Store.Plans.{get_plan-persist_plan, get_plan_of_plans}
use aijoes_app.Execution.Types.{ExecutionPlan, PlanStatus}
use aijoes_app.Verification.Baseline.{Baseline, capture_baseline}

note_baseline-Quiet :
    (tenant user plan now : ℕ) (captured : Option Baseline × List Baseline) (db : Db)
    → Quiet db (note_baseline tenant user plan now captured db)
note_baseline-Quiet tenant user plan now (none, rows) db = ((tt, refl), refl, refl, refl)
note_baseline-Quiet tenant user plan now (some b, rows) db = ((tt, refl), refl, refl, refl)

module _ (windows : ℕ → Option ℕ) (tenant plan user rationale fresh fresh_baseline now : ℕ)
    (db : Db) where
  -- Where authorising throws it changes nothing: at a plan that the tenant does not have, a plan
  -- with blockers, and a plan that is not AWAITING_AUTHORISATION.
  pub authorise_plan-throws :
      (get_plan tenant db plan ≡ none
        → authorise_plan windows tenant plan user rationale fresh fresh_baseline now db
          ≡ (err (plan_not_found plan), db))
      × ((p : ExecutionPlan)
          → get_plan tenant db plan ≡ some p
          → has_blockers p.blockers ≡ true
          → authorise_plan windows tenant plan user rationale fresh fresh_baseline now db
            ≡ (err (blocked p.blockers), db))
      × ((p : ExecutionPlan)
          → get_plan tenant db plan ≡ some p
          → has_blockers p.blockers ≡ false
          → is_awaiting_authorisation p.status ≡ false
          → authorise_plan windows tenant plan user rationale fresh fresh_baseline now db
            ≡ (err (not_awaiting_authorisation p.status), db))
  unfolding authorise_plan
  authorise_plan-throws = (
    λ e. rw (e, found_or, ◌>>=◌),
    λ p e b. rw (e, found_or, ◌>>=◌, b),
    λ p e b s. rw (e, found_or, ◌>>=◌, b, s),
  )

  -- The effect of the writes.
  commit_authorisation-returns :
      (p : ExecutionPlan)
      → let (r, db') =
          commit_authorisation windows tenant plan user rationale fresh fresh_baseline now p db in
        (r ≡ ok (authorised_plan p user now))
        × (db'.plans ≡ (persist_plan tenant (authorised_plan p user now) db).plans)
        × (db'.invoked ≡ db.invoked)
        × (db'.approvals ≡ db.approvals ++ authorisation fresh tenant plan user rationale now ∷ [])
  unfolding commit_authorisation persist_plan
  commit_authorisation-returns p =
      let written = persist_plan tenant (authorised_plan p user now) db in
      let noted : Db = record written {
        approvals = db.approvals ++ authorisation fresh tenant plan user rationale now ∷ [];
        audit_log =
            db.audit_log
            ++ record {
              tenant_id = tenant;
              actor = user;
              action = plan_authorised rationale;
              subject_id = plan;
              at = now;
            }
              ∷ [];
      } in
      let moved =
        advance_found tenant (get_benefit_by_opportunity tenant db.benefits p.opportunity_id)
          Ledger.BenefitStage.approved no_update now noted in
      let ((b, advanced), plans, invoked, approvals) =
        advance_found-Quiet tenant (get_benefit_by_opportunity tenant db.benefits p.opportunity_id)
          Ledger.BenefitStage.approved no_update now noted (λ f. cc) in
      let ((u, captured), plans', invoked', approvals') =
        note_baseline-Quiet tenant user plan now
          (capture_baseline tenant moved.1.baselines moved.1.facts p p.playbook_id
            (get_or (windows p.playbook_id) 90) fresh_baseline now)
          moved.1 in
      rw (advanced, ◌>>=◌, captured)
        (refl, plans' ∙ plans, invoked' ∙ invoked, approvals' ∙ approvals)

  authorise_plan-stored :
      (p : ExecutionPlan)
      → get_plan tenant db plan ≡ some p
      → p.id ≡ plan
      → has_blockers p.blockers ≡ false
      → is_awaiting_authorisation p.status ≡ true
      → let (r, db') =
          authorise_plan windows tenant plan user rationale fresh fresh_baseline now db in
        (r ≡ ok (authorised_plan p user now))
        × (get_plan tenant db' plan ≡ some (authorised_plan p user now))
        × (db'.approvals ≡ db.approvals ++ authorisation fresh tenant plan user rationale now ∷ [])
        × (db'.invoked ≡ db.invoked)
  unfolding authorise_plan
  authorise_plan-stored p e own clean expected =
      let (returned, plans, invoked, approvals) = commit_authorisation-returns p in
      rw (e, found_or, ◌>>=◌, clean, expected)
        (
          returned,
          get_plan_of_plans tenant (persist_plan tenant (authorised_plan p user now) db)
                (commit_authorisation windows tenant plan user rationale fresh fresh_baseline now p
                  db).1
                plan plans
              ∙ get_plan-persist_plan tenant tenant db plan (authorised_plan p user now) p e own,
          approvals,
          invoked,
        )

awaiting_iff :
    (s : PlanStatus)
    → (is_awaiting_authorisation s ≡ true → s ≡ PlanStatus.awaiting_authorisation)
      × (is_awaiting_authorisation s ≡ false → s ≢ PlanStatus.awaiting_authorisation)
awaiting_iff s = (λ h. ground arith, λ h. ground arith)

clear_iff : (bs : List ℕ) → (has_blockers bs ≡ true → bs ≢ []) × (has_blockers bs ≡ false → bs ≡ [])
clear_iff [] = (λ h. cc, λ h. refl)
clear_iff (b ∷ bs) = (λ h e. cc, λ h. cc)

module _ (windows : ℕ → Option ℕ) (tenant plan user rationale fresh fresh_baseline now : ℕ)
    (db : Db) where
  -- Authorising a plan of the tenant throws and changes nothing where the plan has blockers, and
  -- where it is not AWAITING_AUTHORISATION. In every other case it returns the plan AUTHORISED by
  -- the user at that instant and otherwise unchanged, and stores it, so that a run accepts it; it
  -- adds one approval, of the whole plan, decided APPROVED by the user with the rationale; nothing
  -- reaches an adapter; and authorising the plan again, by anyone, throws and changes nothing.
  pub authorise_plan-returns :
      (p : ExecutionPlan)
      → get_plan tenant db plan ≡ some p
      → p.id ≡ plan
      → let (r, db') =
          authorise_plan windows tenant plan user rationale fresh fresh_baseline now db in
        ((p.blockers ≢ []) × (r ≡ err (blocked p.blockers)) × (db' ≡ db))
        ⊎ ((p.blockers ≡ [])
            × (p.status ≢ PlanStatus.awaiting_authorisation)
            × (r ≡ err (not_awaiting_authorisation p.status))
            × (db' ≡ db))
        ⊎ ((p.blockers ≡ [])
            × (p.status ≡ PlanStatus.awaiting_authorisation)
            × (r
                ≡ ok (record p {
                  status = PlanStatus.authorised;
                  authorised_at = some now;
                  authorised_by = some user;
                }))
            × IsRunnable tenant db' plan (record p {
              status = PlanStatus.authorised;
              authorised_at = some now;
              authorised_by = some user;
            })
            × (db'.approvals
                ≡ db.approvals
                  ++ record {
                    id = fresh;
                    tenant_id = tenant;
                    execution_plan_id = plan;
                    task_id = none;
                    requested_at = now;
                    decided_at = some now;
                    decided_by = some user;
                    decision = some Decision.approved;
                    rationale = some rationale;
                  }
                    ∷ [])
            × (db'.invoked ≡ db.invoked)
            × ((user' rationale' fresh' fresh_baseline' later : ℕ)
                → authorise_plan windows tenant plan user' rationale' fresh' fresh_baseline' later
                    db'
                  ≡ (err (not_awaiting_authorisation PlanStatus.authorised), db')))
  authorise_plan-returns p e own =
      let (_, hindered, settled) =
        authorise_plan-throws windows tenant plan user rationale fresh fresh_baseline now db in
      elim (Bool-cases (has_blockers p.blockers)) [
        | inl b ↦
            let thrown = hindered p e b in
            inl ((clear_iff p.blockers).0 b, ap (λ x. x.0) thrown, ap (λ x. x.1) thrown)
        | inr c ↦ elim (Bool-cases (is_awaiting_authorisation p.status)) [
          | inr n ↦
              let thrown = settled p e c n in
              inr (
                inl (
                  (clear_iff p.blockers).1 c,
                  (awaiting_iff p.status).1 n,
                  ap (λ x. x.0) thrown,
                  ap (λ x. x.1) thrown,
                ))
          | inl y ↦
              let (returned, stored, approvals, invoked) =
                authorise_plan-stored windows tenant plan user rationale fresh fresh_baseline now db
                  p e own c y in
              inr (
                inr (
                  (clear_iff p.blockers).1 c,
                  (awaiting_iff p.status).0 y,
                  returned,
                  record { found = stored; status = inl refl },
                  approvals,
                  invoked,
                  λ user' rationale' fresh' fresh_baseline' later.
                      (authorise_plan-throws windows tenant plan user' rationale' fresh'
                          fresh_baseline' later _).2
                        (authorised_plan p user now) stored c refl,
                ))
        ]
      ]
