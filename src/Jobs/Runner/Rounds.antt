-- ===== src/Jobs/Runner/Rounds.antt =====
-- `tick` and `drain` of src/lib/jobs/runner.ts: what a round leaves behind, and when draining is done.
use aijoes_app.Prelude.{
  ℕ, zero, suc, ◌+◌, ◌≤◌, ◌<◌, true, false, ◌≡◌, refl, sym, ap, subst, ◌∙◌, ◌⊎◌, inl, inr, Option,
  none, some, map_option, arith, In, Option-cases, ◌==◌,
}
use aijoes_app.Jobs.Queue.{
  Jobs, JobRow, JobType, pending, dead, succeeded, get_job, claimable, claim_next, complete_job,
  fail_job, finish,
}
use aijoes_app.Jobs.Queue.Keys.{
  IsKeyed, get_job-map, finish-id, claim_next-IsKeyed, complete_job-IsKeyed, fail_job-IsKeyed,
}
use aijoes_app.Jobs.Queue.Claims.{locked, claim_next-claims}
use aijoes_app.Jobs.Queue.Life.{fail_job-retries}
use aijoes_app.Jobs.Runner.{Handler, settle, handle, tick, tick_with, drain, no_handler}

-- The job is in the table, unlocked, with one more attempt, and succeeded.
abbrev pub Succeeded : JobRow → Jobs → Type 0
Succeeded c db =
    (j : JobRow) × (get_job c.id db ≡ some j)
    × (j.locked_by ≡ none)
    × (j.attempts ≡ c.attempts + 1)
    × (j.status ≡ succeeded)

-- The job is in the table, unlocked, with one more attempt and the error, and due again or given up.
abbrev pub FailedWith : ℕ → JobRow → Jobs → Type 0
FailedWith error c db =
    (j : JobRow) × (get_job c.id db ≡ some j)
    × (j.locked_by ≡ none)
    × (j.attempts ≡ c.attempts + 1)
    × (j.last_error ≡ some error)
    × (((j.status ≡ dead) × (c.max_attempts ≤ c.attempts + 1))
        ⊎ ((j.status ≡ pending) × (c.attempts + 1 < c.max_attempts)))

-- What became of a job, by its handler and by how that handler ended on the claimed job.
abbrev pub Settled : Option Handler → JobRow → Jobs → JobRow → Jobs → Type 0
Settled handler taken db c db' =
    ((handler ≡ none) × FailedWith no_handler c db')
    ⊎ ((f : Handler) × (handler ≡ some f)
        × ((((f taken db).0 ≡ none) × Succeeded c db')
            ⊎ ((e : ℕ) × ((f taken db).0 ≡ some e) × FailedWith e c db')))

module _ (worker now : ℕ) (c : JobRow) where
  fail_job-Settled :
      (error : ℕ) (db : Jobs)
      → get_job c.id db ≡ some (locked worker now c)
      → FailedWith error c (fail_job c.id error now db).1
  fail_job-Settled error db e = elim (fail_job-retries c.id error now db) [
    | inl (gone, _, _) ↦ absurd (none_some (sym gone ∙ e))
    | inr (j, found, (j', _, stored, note, _, free, kept, split, _, _)) ↦
        let is : j ≡ locked worker now c = some_inj j (locked worker now c) (sym found ∙ e) in
        let tries : j.attempts ≡ c.attempts + 1 = ap (λ x. x.attempts) is in
        let most : j.max_attempts ≡ c.max_attempts = ap (λ x. x.max_attempts) is in
        (
          j',
          stored,
          free,
          kept ∙ tries,
          note,
          elim split [
            | inl (gave_up, full) ↦ inl (gave_up, omega arith)
            | inr (again, more) ↦ inr (again, omega arith)
          ],
        )
  ]
    where
      some_inj : (x y : JobRow) → some x ≡ some y → x ≡ y
      some_inj x y k = cc

      none_some : none ≡ some (locked worker now c) → ⊥
      none_some k = cc

  complete_job-Settled :
      (db : Jobs)
      → get_job c.id db ≡ some (locked worker now c)
      → Succeeded c (complete_job c.id now db)
  unfolding complete_job
  complete_job-Settled db e =
      let done =
        get_job-map (finish c.id now) (finish-id c.id now) c.id db
        ∙ ap (map_option (finish c.id now)) e in
      let own : (c.id == c.id) ≡ true = ground arith in
      (_, done, rw own refl, rw own refl, rw own refl)

  settle-Settled :
      (f : Handler) (db : Jobs)
      → (r : Option ℕ × Jobs) → f (locked worker now c) db ≡ r
      → get_job c.id r.1 ≡ some (locked worker now c)
      → Settled (some f) (locked worker now c) db c (settle (locked worker now c) now r)
  settle-Settled f db (none, db') ended e =
      inr (f, refl, inl (ap (λ x. x.0) ended, complete_job-Settled db' e))
  settle-Settled f db (some error, db') ended e =
      inr (f, refl, inr (error, ap (λ x. x.0) ended, fail_job-Settled error db' e))

-- A handler that leaves the row of its own job alone.
abbrev pub LeavesJob : (JobType → Option Handler) → Type 0
LeavesJob handlers =
    (j : JobRow) (f : Handler) (db : Jobs)
    → handlers j.type ≡ some f
    → get_job j.id (f j db).1 ≡ get_job j.id db

module _ (handlers : JobType → Option Handler) (leaves : LeavesJob handlers) (worker : ℕ) where
  handle-Settled :
      (now : ℕ) (c : JobRow) (db : Jobs)
      → get_job c.id db ≡ some (locked worker now c)
      → Settled
          (handlers c.type)
          (locked worker now c)
          db
          c
          (handle (locked worker now c) now (handlers c.type) db)
  handle-Settled now c db e = elim (Option-cases (handlers c.type)) [
    | inl n ↦ rw n (inl (refl, fail_job-Settled worker now c no_handler db e))
    | inr (f, h) ↦
        rw h (settle-Settled worker now c f db _ refl (leaves (locked worker now c) f db h ∙ e))
  ]

  -- Where handlers leave the row of their job alone, a round that finds no claimable job says so and
  -- changes nothing. Any other round claims the claimable job that has been due longest and leaves it
  -- unlocked with one more attempt: succeeded exactly when its handler ended well, and otherwise with
  -- the handler's error, or with that of a missing handler, pending if it has attempts left and dead
  -- if it has none.
  pub tick-Settled :
      (now : ℕ) (db : Jobs)
      → IsKeyed db
      → let (did, db') = tick handlers worker now db in
        ((did ≡ false) × (db' ≡ db) × ((j : JobRow) → In j db → claimable now j ≡ false))
        ⊎ ((did ≡ true)
            × ((c : JobRow) × In c db
                × (claimable now c ≡ true)
                × ((j : JobRow) → In j db → claimable now j ≡ true → c.run_after ≤ j.run_after)
                × Settled
                    (handlers c.type)
                    (locked worker now c)
                    (claim_next worker now db).1
                    c
                    db'))
  unfolding tick
  tick-Settled now db h = elim (claim_next-claims worker now db h) [
    | inl (e, same, quiet) ↦ rw e (inl (refl, same, quiet))
    | inr (c, listed, due, first, e, stored) ↦
        let made = handle-Settled now c (claim_next worker now db).1 stored in
        inr (
          ap (λ r. (tick_with handlers now (r, (claim_next worker now db).1)).0) e,
          (
            c,
            listed,
            due,
            first,
            subst
                (λ r.
                  Settled (handlers c.type) (locked worker now c) (claim_next worker now db).1 c
                    (tick_with handlers now (r, (claim_next worker now db).1)).1)
                (sym e) made,
          ),
        )
  ]

  -- A handler that keeps the ids of the table apart.
  module _
      (keeps : (j : JobRow) (f : Handler) (db : Jobs)
        → handlers j.type ≡ some f
        → IsKeyed db
        → IsKeyed (f j db).1) where
    settle-IsKeyed :
        (j : JobRow) (now : ℕ) (r : Option ℕ × Jobs) → IsKeyed r.1 → IsKeyed (settle j now r)
    settle-IsKeyed j now (none, db) h = complete_job-IsKeyed j.id now db h
    settle-IsKeyed j now (some e, db) h = fail_job-IsKeyed j.id e now db h

    handle-IsKeyed :
        (j : JobRow) (now : ℕ) (db : Jobs)
        → IsKeyed db
        → IsKeyed (handle j now (handlers j.type) db)
    handle-IsKeyed j now db h = elim (Option-cases (handlers j.type)) [
      | inl n ↦ rw n (fail_job-IsKeyed j.id no_handler now db h)
      | inr (f, e) ↦ rw e (settle-IsKeyed j now (f j db) (keeps j f db e h))
    ]

    tick-IsKeyed : (now : ℕ) (db : Jobs) → IsKeyed db → IsKeyed (tick handlers worker now db).1
    unfolding tick
    tick-IsKeyed now db h =
        let kept = claim_next-IsKeyed worker now db h in
        elim (Option-cases (claim_next worker now db).0) [
          | inl e ↦ rw e kept
          | inr (j, e) ↦ rw e (handle-IsKeyed j now (claim_next worker now db).1 kept)
        ]

    -- Where handlers also keep the ids of the table apart, draining processes at most as many jobs
    -- as it was allowed, and where it stops short of that, no job of the table that it leaves was
    -- claimable at the instant of its last round.
    pub drain-stops :
        (clock : ℕ → ℕ) (max_jobs : ℕ) (db : Jobs)
        → IsKeyed db
        → let (processed, db') = drain handlers worker clock max_jobs db in
          (processed ≤ max_jobs)
          × ((processed ≡ max_jobs)
              ⊎ ((left : ℕ) × (left < max_jobs)
                  × ((j : JobRow) → In j db' → claimable (clock left) j ≡ false)))
    unfolding drain
    drain-stops clock zero db h = (omega arith, inl refl)
    drain-stops clock (suc left) db h = elim (tick-Settled (clock left) db h) [
      | inl (e, same, quiet) ↦ rw (e, same) (omega arith, inr (left, omega arith, quiet))
      | inr (e, _) ↦
          let (few, rest) =
            drain-stops clock left (tick handlers worker (clock left) db).1
              (tick-IsKeyed (clock left) db h) in
          rw e (
            omega arith,
            elim rest [
              | inl all ↦ inl (omega arith)
              | inr (n, less, quiet) ↦ inr (n, omega arith, quiet)
            ],
          )
    ]
