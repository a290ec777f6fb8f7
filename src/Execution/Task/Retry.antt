-- ===== src/Execution/Task/Retry.antt =====
-- What `executeTask` of src/lib/execution/engine.ts does to the outside.
use aijoes_app.Prelude.{
  ℕ, zero, suc, ◌+◌, ◌≤◌, true, false, ◌≡◌, ◌≢◌, refl, ◌∙◌, ap, ◌⊎◌, inl, inr, Option, none, some,
  List, ◌∷◌, arith, In, Bool-cases, Option-cases,
}
use aijoes_app.Execution.Types.{ExecutionPlan, ExecutionTask, completed, failed}
use aijoes_app.Execution.Store.{Db, Invocation}
use aijoes_app.Execution.Task.{
  Adapter, Attempts, invocation, invoke_loop, succeeded, attempts_of, execute_task, execute_with,
}

-- The same invocation `k` times more.
abbrev pub repeated : ℕ → Invocation → List Invocation → List Invocation
repeated zero i l = l
repeated (suc k) i l = repeated k i (i ∷ l)

In-of_repeated :
    (k : ℕ) (i j : Invocation) (l : List Invocation) → In j (repeated k i l) → In j l ⊎ (j ≡ i)
In-of_repeated zero i j l m = inl m
In-of_repeated (suc k) i j l m = ground (arith, In-of_repeated k i j (i ∷ l) m)

In-repeated : (k : ℕ) (i j : Invocation) (l : List Invocation) → In j l → In j (repeated k i l)
In-repeated zero i j l m = m
In-repeated (suc k) i j l m = In-repeated k i j (i ∷ l) (inr m)

-- The loop stops at the first success, at a rejection, or when all rounds have failed.
record Tried (left : ℕ) (adapter : Adapter) (i : Invocation) (a r : Attempts) : Type 0 where
  pub used : ℕ
  pub made : r.invoked ≡ repeated used i a.invoked
  pub outcome :
      ((r.rejected ≡ false)
        × (succeeded r.last ≡ true)
        × (r.attempt + 1 ≡ a.attempt + used)
        × (1 ≤ used)
        × (used ≤ left))
      ⊎ ((r.rejected ≡ false)
          × (succeeded r.last ≡ false)
          × (r.attempt ≡ a.attempt + used)
          × (used ≡ left))
      ⊎ ((r.rejected ≡ true)
          × (1 ≤ used)
          × (used ≤ left)
          × ((l : List Invocation) × (adapter l i ≡ none)))

invoke_loop-Tried :
    (left : ℕ) (adapter : Adapter) (i : Invocation) (a : Attempts)
    → succeeded a.last ≡ false
    → a.rejected ≡ false
    → Tried left adapter i a (invoke_loop left adapter i a)
unfolding invoke_loop
invoke_loop-Tried zero adapter i a h k = record {
  used = 0;
  made = refl;
  outcome = inr (inl (k, h, omega arith, refl));
}
invoke_loop-Tried (suc left) adapter i a h k = elim (Option-cases (adapter a.invoked i)) [
  | inl none_given ↦
      rw (invoke_loop, none_given)
        (record {
          used = 1;
          made = refl;
          outcome = inr (inr (refl, omega arith, omega arith, (a.invoked, none_given)));
        })
  | inr (o, given) ↦ elim (Bool-cases (o.ok)) [
    | inl good ↦
        rw (invoke_loop, given)
          (simp good (record {
            used = 1;
            made = refl;
            outcome = inl (k, good, refl, omega arith, omega arith);
          }))
    | inr bad ↦
        let next : Attempts = record a {
          last = some o;
          attempt = a.attempt + 1;
          invoked = i ∷ a.invoked;
        } in
        let tried = invoke_loop-Tried left adapter i next bad k in
        rw (invoke_loop, given)
          (simp bad (record { used = suc (tried.used); made = tried.made; outcome = ground arith }))
  ]
]

-- The adapter of the task's capability rejects the task's invocation, after some invocations.
abbrev pub Rejects : (ℕ → Option Adapter) → ExecutionPlan → ExecutionTask → Type 0
Rejects adapters p t =
    (a : Adapter) × (adapters t.assigned_capability ≡ some a)
    × ((l : List Invocation) × (a l (invocation p t) ≡ none))

-- What a task came to.
abbrev pub Ran :
    (ℕ → Option Adapter) → ExecutionPlan → ExecutionTask → Db → Option ExecutionTask × Db → Type 0
Ran adapters p t db (none, db') =
    Rejects adapters p t
    × ((n : ℕ) × (1 ≤ n) × (n ≤ 3) × (db'.invoked ≡ repeated n (invocation p t) db.invoked))
    × (db'.agent_events ≡ db.agent_events)
Ran adapters p t db (some t', db') =
    ((t'.status ≡ completed)
      × (adapters t.assigned_capability ≢ none)
      × (t'.retry_count ≤ 2)
      × (db'.invoked ≡ repeated (suc t'.retry_count) (invocation p t) db.invoked))
    ⊎ ((t'.status ≡ failed)
        × (adapters t.assigned_capability ≢ none)
        × (t'.retry_count ≡ 3)
        × (db'.invoked ≡ repeated 3 (invocation p t) db.invoked))
    ⊎ ((t'.status ≡ failed) × (adapters t.assigned_capability ≡ none) × (db' ≡ db))

-- A task whose capability has an adapter ends COMPLETED after at most two failed attempts, or FAILED
-- after three, or is thrown out of by a rejection of this invocation by the adapter, which records no event. The
-- adapter has then been invoked once more than it failed, or three times, or up to three times,
-- each time with the invocation of this task, and nothing else was invoked. Without an adapter, and
-- not otherwise, the task is FAILED with nothing invoked.
pub execute_task-attempts :
    (adapters : ℕ → Option Adapter) (p : ExecutionPlan) (t : ExecutionTask) (now : ℕ) (db : Db)
    → Ran adapters p t db (execute_task adapters p t now db)
unfolding execute_task attempts_of
execute_task-attempts adapters p t now db = by_adapter (adapters t.assigned_capability) refl
  where
    by_adapter :
        (o : Option Adapter)
        → adapters t.assigned_capability ≡ o
        → Ran adapters p t db (execute_with o p t now db)
    by_adapter none e = inr (inr (refl, e, refl))
    by_adapter (some adapter) e =
        let a = attempts_of adapter p t db in
        let start : Attempts = record {
          last = none;
          attempt = 0;
          rejected = false;
          invoked = db.invoked;
        } in
        let tried = invoke_loop-Tried 3 adapter (invocation p t) start refl refl in
        let made = tried.made in
        let known : adapters t.assigned_capability ≢ none = λ n. cc in
        elim (tried.outcome) [
          | inl (whole, good, count, some_made, few) ↦
              let count' : tried.used ≡ suc a.attempt = omega arith in
              let most : a.attempt ≤ 2 = omega arith in
              rw whole (
                inl (
                  rw good refl,
                  known,
                  most,
                  made ∙ ap (λ k. repeated k (invocation p t) db.invoked) count',
                ))
          | inr (inl (whole, bad, count, all_made)) ↦
              let most : a.attempt ≡ 3 = omega arith in
              rw whole (
                inr (
                  inl (
                    rw bad refl,
                    known,
                    most,
                    made ∙ ap (λ k. repeated k (invocation p t) db.invoked) all_made,
                  )))
          | inr (inr (thrown, some_made, few, rejects)) ↦
              rw thrown ((adapter, e, rejects), (tried.used, some_made, few, made), refl)
        ]

module _ (adapters : ℕ → Option Adapter) (p : ExecutionPlan) (t : ExecutionTask) (now : ℕ)
    (db : Db) where
  -- The invocations of this task that were made, however it ended.
  abbrev Made : Db → Type 0
  Made db' =
      (n : ℕ) × (db'.invoked ≡ repeated n (invocation p t) db.invoked)
      × (adapters t.assigned_capability ≢ none → 1 ≤ n)

  Ran-Made : (r : Option ExecutionTask × Db) → Ran adapters p t db r → Made r.1
  Ran-Made (none, db') (_, (n, some_made, _, made), _) = (n, made, λ k. some_made)
  Ran-Made (some t', db') (inl (_, _, _, made)) = (suc t'.retry_count, made, λ k. omega arith)
  Ran-Made (some t', db') (inr (inl (_, _, _, made))) = (3, made, λ k. omega arith)
  Ran-Made (some t', db') (inr (inr (_, absent, same))) =
      (0, ap (λ d. d.invoked) same, λ k. absurd (k absent))

  execute_task-Made : Made (execute_task adapters p t now db).1
  execute_task-Made = Ran-Made _ (execute_task-attempts adapters p t now db)

  pub execute_task-In :
      (j : Invocation)
      → In j (execute_task adapters p t now db).1.invoked
      → In j db.invoked ⊎ (j ≡ invocation p t)
  execute_task-In j m =
      let (n, made, _) = execute_task-Made in In-of_repeated n _ j db.invoked (rw made at m)

  pub execute_task-kept :
      (j : Invocation) → In j db.invoked → In j (execute_task adapters p t now db).1.invoked
  execute_task-kept j m =
      let (n, made, _) = execute_task-Made in rw made (In-repeated n _ j db.invoked m)

  pub execute_task-made :
      adapters t.assigned_capability ≢ none
      → In (invocation p t) (execute_task adapters p t now db).1.invoked
  execute_task-made known =
      let (n, made, some_made) = execute_task-Made in rw made (In-of_some n (some_made known))
    where
      In-of_some : (n : ℕ) → 1 ≤ n → In (invocation p t) (repeated n (invocation p t) db.invoked)
      In-of_some zero h = absurd (omega arith)
      In-of_some (suc n) h = In-repeated n _ _ _ (inl refl)

  -- How a task can end.
  abbrev pub Ended : Option ExecutionTask → Type 0
  Ended o =
      ((o ≡ none) × Rejects adapters p t)
      ⊎ ((t' : ExecutionTask) × (o ≡ some t') × ((t'.status ≡ completed) ⊎ (t'.status ≡ failed)))

  Ran-Ended : (r : Option ExecutionTask × Db) → Ran adapters p t db r → Ended r.0
  Ran-Ended (none, db') (h, _, _) = inl (refl, h)
  Ran-Ended (some t', db') h = inr (t', refl, ground arith)

  pub execute_task-Ended : Ended (execute_task adapters p t now db).0
  execute_task-Ended = Ran-Ended _ (execute_task-attempts adapters p t now db)

  pub execute_task-plans : (execute_task adapters p t now db).1.plans ≡ db.plans
  unfolding execute_task
  execute_task-plans = elim (Option-cases (adapters t.assigned_capability)) [
    | inl e ↦ rw e
    | inr (a, e) ↦ elim (Bool-cases ((attempts_of a p t db).rejected)) [
      | inl k ↦ rw (e, k)
      | inr k ↦ rw (e, k)
    ]
  ]
