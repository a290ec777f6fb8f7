-- ===== src/Execution/Loop/Gate.antt =====
-- The loop of `runExecution` in src/lib/execution/engine.ts: what it hands to the adapters, and how
-- it can end.
use aijoes_app.Prelude.{
  ℕ, ℤ, pos, ◌+ℤ◌, true, false, ◌≡◌, refl, ◌∙◌, ◌⊎◌, inl, inr, Option, get_or, List, [], ◌∷◌, In,
  all, Bool-cases,
}
use aijoes_app.Execution.Types.{ExecutionPlan, ExecutionTask, completed, failed}
use aijoes_app.Execution.Store.{Db, Invocation}
use aijoes_app.Execution.Task.{Adapter, invocation, gated, execute_task, request_approval}
use aijoes_app.Execution.Task.Retry.{
  execute_task-In, Rejects, execute_task-kept, execute_task-Ended, execute_task-plans,
}
use aijoes_app.Execution.Loop.{
  ended, gate_reached, task_failed, task_rejected, Work, run_loop, settled, keep_task, waiting_task,
}

module _ (adapters : ℕ → Option Adapter) (tenant : ℕ) (p : ExecutionPlan) (fresh now : ℕ) where
  -- The loop on the later tasks, past a settled task and past an executed one.
  abbrev pub skip_rest : ExecutionTask → List ExecutionTask → ℤ → ℤ → Db → Work
  skip_rest t ts m c db =
      run_loop adapters tenant p fresh now ts (m +ℤ get_or t.measured_value_gbp (pos 0))
        (c +ℤ t.cost_gbp) db

  abbrev pub go_rest : ExecutionTask → Db → List ExecutionTask → ℤ → ℤ → Work
  go_rest t' db' ts m c =
      run_loop adapters tenant p fresh now ts (m +ℤ get_or t'.measured_value_gbp (pos 0))
        (c +ℤ t'.cost_gbp) db'

  -- The five ways in which the loop treats the task in front of it.
  pub run_loop-cases :
      (t : ExecutionTask) (ts : List ExecutionTask) (m c : ℤ) (db : Db)
      → let w = run_loop adapters tenant p fresh now (t ∷ ts) m c db in
        let (o, db') = execute_task adapters p t now db in
        ((settled t.status ≡ true) × (w ≡ keep_task t (skip_rest t ts m c db)))
        ⊎ ((settled t.status ≡ false)
            × (gated t ≡ true)
            × (w.ending ≡ gate_reached)
            × (w.tasks ≡ waiting_task t fresh ∷ ts)
            × (w.awaiting ≡ waiting_task t fresh ∷ [])
            × (w.db ≡ request_approval tenant p t fresh now db))
        ⊎ ((settled t.status ≡ false)
            × (gated t ≡ false)
            × ((t' : ExecutionTask) × (t'.status ≡ failed) × (w.tasks ≡ t' ∷ ts))
            × (w.ending ≡ task_failed)
            × (w.awaiting ≡ [])
            × (w.db ≡ db'))
        ⊎ ((settled t.status ≡ false)
            × (gated t ≡ false)
            × (w.ending ≡ task_rejected)
            × Rejects adapters p t
            × (w.tasks ≡ t ∷ ts)
            × (w.awaiting ≡ [])
            × (w.db ≡ db'))
        ⊎ ((settled t.status ≡ false)
            × (gated t ≡ false)
            × ((t' : ExecutionTask) × (t'.status ≡ completed)
                × (w ≡ keep_task t' (go_rest t' db' ts m c))))
  unfolding run_loop
  run_loop-cases t ts m c db = elim (Bool-cases (settled t.status)) [
    | inl s ↦ inl (s, simp s)
    | inr s ↦ elim (Bool-cases (gated t)) [
      | inl g ↦ inr (inl (s, g, simp (s, g), simp (s, g), simp (s, g), simp (s, g)))
      | inr g ↦ elim (execute_task-Ended adapters p t now db) [
        | inl (e, k) ↦ inr (
            inr
              (inr (inl (s, g, simp (s, g, e), k, simp (s, g, e), simp (s, g, e), simp (s, g, e)))))
        | inr (t', e, inl d) ↦ inr (inr (inr (inr (s, g, (t', d, simp (s, g, e, d))))))
        | inr (t', e, inr d) ↦ inr (
            inr (
              inl (
                s,
                g,
                (t', d, simp (s, g, e, d)),
                simp (s, g, e, d),
                simp (s, g, e, d),
                simp (s, g, e, d),
              )))
      ]
    ]
  ]

  -- An invocation that the loop may make: of a task that is neither settled nor behind a gate.
  abbrev pub Released : List ExecutionTask → Invocation → Type 0
  Released ts j =
      (t : ExecutionTask) × In t ts
      × (settled t.status ≡ false)
      × (gated t ≡ false)
      × (j ≡ invocation p t)

  Released-cons :
      (t : ExecutionTask) (ts : List ExecutionTask) (j : Invocation)
      → Released ts j
      → Released (t ∷ ts) j
  Released-cons t ts j (u, m, s, g, e) = (u, inr m, s, g, e)

  pub run_loop-Released :
      (ts : List ExecutionTask) (m c : ℤ) (db : Db) (j : Invocation)
      → In j (run_loop adapters tenant p fresh now ts m c db).db.invoked
      → In j db.invoked ⊎ Released ts j
  unfolding run_loop
  run_loop-Released [] m c db j k = inl k
  run_loop-Released (t ∷ ts) m c db j k = elim (run_loop-cases t ts m c db) [
    | inl (s, e) ↦ elim (run_loop-Released ts _ _ db j (rw e at k)) [
      | inl old ↦ inl old
      | inr r ↦ inr (Released-cons t ts j r)
    ]
    | inr (inl (s, g, _, _, _, e)) ↦ inl (request_approval-In j db t (rw e at k))
    | inr (inr (inl (s, g, _, _, _, e))) ↦ own s g (rw e at k)
    | inr (inr (inr (inl (s, g, _, _, _, _, e)))) ↦ own s g (rw e at k)
    | inr (inr (inr (inr (s, g, (_, _, e))))) ↦
        elim (run_loop-Released ts _ _ (execute_task adapters p t now db).1 j (rw e at k)) [
          | inl old ↦ own s g old
          | inr r ↦ inr (Released-cons t ts j r)
        ]
  ]
    where
      request_approval-In :
          (j : Invocation) (db : Db) (t : ExecutionTask)
          → In j (request_approval tenant p t fresh now db).invoked
          → In j db.invoked
      request_approval-In j db t k = unfold request_approval in k

      own :
          settled t.status ≡ false
          → gated t ≡ false
          → In j (execute_task adapters p t now db).1.invoked
          → In j db.invoked ⊎ Released (t ∷ ts) j
      own s g k = elim (execute_task-In adapters p t now db j k) [
        | inl old ↦ inl old
        | inr made ↦ inr (t, inl refl, s, g, made)
      ]

  -- How the loop ends, by what it leaves.
  abbrev pub Ends : List ExecutionTask → Work → Type 0
  Ends ts w =
      ((w.ending ≡ ended) × (all (λ t. settled t.status) w.tasks ≡ true) × (w.awaiting ≡ []))
      ⊎ ((w.ending ≡ gate_reached)
          × (all (λ t. settled t.status) w.tasks ≡ false)
          × ((t : ExecutionTask) × In t ts
              × (gated t ≡ true)
              × (w.awaiting ≡ waiting_task t fresh ∷ [])
              × In (waiting_task t fresh) w.tasks))
      ⊎ ((w.ending ≡ task_failed)
          × (all (λ t. settled t.status) w.tasks ≡ false)
          × (w.awaiting ≡ [])
          × ((t : ExecutionTask) × In t w.tasks × (t.status ≡ failed)))
      ⊎ ((w.ending ≡ task_rejected) × ((t : ExecutionTask) × In t ts × Rejects adapters p t))

  Ends-keep :
      (t u : ExecutionTask) (ts : List ExecutionTask) (w : Work)
      → settled u.status ≡ true
      → Ends ts w
      → Ends (t ∷ ts) (keep_task u w)
  Ends-keep t u ts w s (inl (e, a, n)) = inl (e, rw (s, a), n)
  Ends-keep t u ts w s (inr (inl (e, a, (v, m, g, n, k)))) =
      inr (inl (e, rw (s, a), (v, inr m, g, n, inr k)))
  Ends-keep t u ts w s (inr (inr (inl (e, a, n, (v, m, f))))) =
      inr (inr (inl (e, rw (s, a), n, (v, inr m, f))))
  Ends-keep t u ts w s (inr (inr (inr (e, (v, m, k))))) = inr (inr (inr (e, (v, inr m, k))))

  pub run_loop-Ends :
      (ts : List ExecutionTask) (m c : ℤ) (db : Db)
      → Ends ts (run_loop adapters tenant p fresh now ts m c db)
  unfolding run_loop
  run_loop-Ends [] m c db = inl (refl, refl, refl)
  run_loop-Ends (t ∷ ts) m c db = elim (run_loop-cases t ts m c db) [
    | inl (s, e) ↦ rw e (Ends-keep t t ts (skip_rest t ts m c db) s (run_loop-Ends ts _ _ db))
    | inr (inl (s, g, e, tasks, awaiting, _)) ↦
        inr (inl (e, rw tasks refl, (t, inl refl, g, awaiting, rw tasks (inl refl))))
    | inr (inr (inl (s, g, (t', d, tasks), e, awaiting, _))) ↦
        inr (inr (inl (e, rw (tasks, d) refl, awaiting, (t', rw tasks (inl refl), d))))
    | inr (inr (inr (inl (s, g, e, k, _, _, _)))) ↦ inr (inr (inr (e, (t, inl refl, k))))
    | inr (inr (inr (inr (s, g, (t', d, e))))) ↦ rw e (
        Ends-keep t t' ts (go_rest t' (execute_task adapters p t now db).1 ts m c) (rw d refl)
          (run_loop-Ends ts _ _ (execute_task adapters p t now db).1))
  ]

  pub run_loop-kept :
      (ts : List ExecutionTask) (m c : ℤ) (db : Db) (j : Invocation)
      → In j db.invoked
      → In j (run_loop adapters tenant p fresh now ts m c db).db.invoked
  unfolding run_loop request_approval
  run_loop-kept [] m c db j k = k
  run_loop-kept (t ∷ ts) m c db j k = elim (run_loop-cases t ts m c db) [
    | inl (s, e) ↦ rw e (run_loop-kept ts _ _ db j k)
    | inr (inl (s, g, _, _, _, e)) ↦ rw e k
    | inr (inr (inl (s, g, _, _, _, e))) ↦ rw e (execute_task-kept adapters p t now db j k)
    | inr (inr (inr (inl (s, g, _, _, _, _, e)))) ↦ rw e (execute_task-kept adapters p t now db j k)
    | inr (inr (inr (inr (s, g, (_, _, e))))) ↦ rw e (
        run_loop-kept ts _ _ (execute_task adapters p t now db).1 j
          (execute_task-kept adapters p t now db j k))
  ]

  pub run_loop-plans :
      (ts : List ExecutionTask) (m c : ℤ) (db : Db)
      → (run_loop adapters tenant p fresh now ts m c db).db.plans ≡ db.plans
  unfolding run_loop request_approval
  run_loop-plans [] m c db = refl
  run_loop-plans (t ∷ ts) m c db = elim (run_loop-cases t ts m c db) [
    | inl (s, e) ↦ rw e (run_loop-plans ts _ _ db)
    | inr (inl (s, g, _, _, _, e)) ↦ rw e refl
    | inr (inr (inl (s, g, _, _, _, e))) ↦ rw e (execute_task-plans adapters p t now db)
    | inr (inr (inr (inl (s, g, _, _, _, _, e)))) ↦ rw e (execute_task-plans adapters p t now db)
    | inr (inr (inr (inr (s, g, (_, _, e))))) ↦ rw e (
        run_loop-plans ts _ _ (execute_task adapters p t now db).1
        ∙ execute_task-plans adapters p t now db)
  ]
