-- ===== src/Execution/Loop/Rerun.antt =====
-- The loop of `runExecution` in src/lib/execution/engine.ts, when it stopped at a gate and is run
-- again over the same tasks with no decision in between.
use aijoes_app.Prelude.{
  ℕ, ℤ, pos, ◌+ℤ◌, true, false, ◌≡◌, ◌≢◌, refl, inl, inr, Option, none, get_or, List, [], ◌∷◌,
  arith, In,
}
use aijoes_app.Execution.Types.{ExecutionPlan, ExecutionTask}
use aijoes_app.Execution.Store.{Db}
use aijoes_app.Execution.Task.{Adapter, invocation, gated, execute_task}
use aijoes_app.Execution.Task.Retry.{execute_task-made}
use aijoes_app.Execution.Loop.{gate_reached, Work, run_loop, settled, keep_task, waiting_task}
use aijoes_app.Execution.Loop.Gate.{run_loop-cases, run_loop-kept, skip_rest, go_rest}

-- A task that is not settled is invoked if all tasks before it are settled and it is not gated.
module _ (adapters : ℕ → Option Adapter) (known : (c : ℕ) → adapters c ≢ none) (tenant : ℕ)
    (p : ExecutionPlan) (fresh now : ℕ) where
  pub run_loop-first :
      (t : ExecutionTask) (ts : List ExecutionTask) (m c : ℤ) (db : Db)
      → settled t.status ≡ false
      → gated t ≡ false
      → In (invocation p t) (run_loop adapters tenant p fresh now (t ∷ ts) m c db).db.invoked
  run_loop-first t ts m c db s g = elim (run_loop-cases adapters tenant p fresh now t ts m c db) [
    | inl (s', _) ↦ absurd (ground arith)
    | inr (inl (_, g', _, _, _, _)) ↦ absurd (ground arith)
    | inr (inr (inl (_, _, _, _, _, e))) ↦
        rw e (execute_task-made adapters p t now db (known t.assigned_capability))
    | inr (inr (inr (inl (_, _, _, _, _, _, e)))) ↦
        rw e (execute_task-made adapters p t now db (known t.assigned_capability))
    | inr (inr (inr (inr (_, _, (_, _, e))))) ↦ rw e (
        run_loop-kept adapters tenant p fresh now ts _ _ (execute_task adapters p t now db).1 _
          (execute_task-made adapters p t now db (known t.assigned_capability)))
  ]

  pub run_loop-past :
      (t : ExecutionTask) (ts : List ExecutionTask) (m c : ℤ) (db : Db)
      → settled t.status ≡ true
      → (run_loop adapters tenant p fresh now (t ∷ ts) m c db).db.invoked
        ≡ (run_loop adapters tenant p fresh now ts
            (m +ℤ get_or t.measured_value_gbp (pos 0))
            (c +ℤ t.cost_gbp)
            db).db.invoked
  unfolding run_loop
  run_loop-past t ts m c db s = simp s

-- A second loop over what a loop left behind at a gate, with no decision in between.
module _ (adapters : ℕ → Option Adapter) (tenant : ℕ) (p : ExecutionPlan) (fresh now : ℕ)
    (some_id : fresh ≢ 0) (again : ℕ → Option Adapter) (known : (c : ℕ) → again c ≢ none)
    (p' : ExecutionPlan) (fresh' now' : ℕ) where
  abbrev pub Passed : List ExecutionTask → Work → Type 0
  Passed ts w =
      (t : ExecutionTask) × In t ts
      × (gated t ≡ true)
      × ((m c : ℤ) (db : Db)
          → In (invocation p' (waiting_task t fresh))
              (run_loop again tenant p' fresh' now' w.tasks m c db).db.invoked)

  Passed-keep :
      (t u : ExecutionTask) (ts : List ExecutionTask) (w : Work)
      → settled u.status ≡ true
      → Passed ts w
      → Passed (t ∷ ts) (keep_task u w)
  Passed-keep t u ts w s (v, m, g, f) = (
    v,
    inr m,
    g,
    λ x y db. rw (run_loop-past again known tenant p' fresh' now' u w.tasks x y db s) (f _ _ db),
  )

  pub run_loop-Passed :
      (ts : List ExecutionTask) (m c : ℤ) (db : Db)
      → (run_loop adapters tenant p fresh now ts m c db).ending ≡ gate_reached
      → Passed ts (run_loop adapters tenant p fresh now ts m c db)
  unfolding run_loop
  run_loop-Passed [] m c db e = absurd (ground arith)
  run_loop-Passed (t ∷ ts) m c db end =
      elim (run_loop-cases adapters tenant p fresh now t ts m c db) [
        | inl (s, e) ↦ rw e (
            Passed-keep t t ts (skip_rest adapters tenant p fresh now t ts m c db) s
              (run_loop-Passed ts _ _ db (rw e at end)))
        | inr (inl (s, g, _, tasks, _, _)) ↦ (
          t,
          inl refl,
          g,
          λ x y d. rw tasks (
              run_loop-first again known tenant p' fresh' now' (waiting_task t fresh) ts x y d refl
                (open_gate t)),
        )
        | inr (inr (inl (_, _, _, e, _, _))) ↦ absurd (ground arith)
        | inr (inr (inr (inl (_, _, e, _, _, _, _)))) ↦ absurd (ground arith)
        | inr (inr (inr (inr (s, g, (t', d, e))))) ↦ rw e (
            Passed-keep t t' ts
              (go_rest adapters tenant p fresh now t' (execute_task adapters p t now db).1 ts m c)
              (rw d refl)
              (run_loop-Passed ts _ _ (execute_task adapters p t now db).1 (rw e at end)))
      ]
    where
      open_gate : (t : ExecutionTask) → gated (waiting_task t fresh) ≡ false
      open_gate t = ground arith
