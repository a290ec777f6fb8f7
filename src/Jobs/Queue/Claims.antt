-- ===== src/Jobs/Queue/Claims.antt =====
-- `claimNext` of src/lib/jobs/queue.ts, alone and with two workers that read the same candidate.
use aijoes_app.Prelude.{
  ℕ, ◌+◌, ◌≤◌, true, false, ◌≡◌, refl, ◌∙◌, ap, sym, ◌⊎◌, inl, inr, none, some, [], ◌∷◌, map,
  In-map, any, any-In, filter, sort_by, arith, In, In-of_head, In-of_filter, In-filter,
  head-sort_by-le, head?-ne_none, In-sort_by, map_option, Bool-cases, Option-cases,
}
use aijoes_app.Jobs.Queue.{
  JobRow, Jobs, pending, running, get_job, claim, claim_next, candidate, claimable, earlier, lock,
  locks,
}
use aijoes_app.Jobs.Queue.Keys.{lock-id, claim-IsKeyed, IsKeyed, get_job-map}

abbrev pub locked : ℕ → ℕ → JobRow → JobRow
locked worker now c = record c {
  status = running;
  locked_at = some now;
  locked_by = some worker;
  attempts = c.attempts + 1;
  updated_at = now;
}

no_lock :
    (worker now : ℕ) (c : JobRow) (db : Jobs)
    → c.status ≡ pending
    → any (locks c) (map (lock worker now c) db) ≡ false
no_lock worker now c [] e = refl
no_lock worker now c (j ∷ db) e = elim (Bool-cases (locks c j)) [
  | inl t ↦ rw (t, no_lock worker now c db e) (ground arith)
  | inr n ↦ rw (n, no_lock worker now c db e) (ground arith)
]

locks_self : (c x : JobRow) → x.id ≡ c.id → x.status ≡ c.status → locks c x ≡ true
locks_self c x i s = ground arith

lock-locked :
    (worker now : ℕ) (c x : JobRow) → locks c x ≡ true → lock worker now c x ≡ locked worker now x
lock-locked worker now c x e = rw e refl

-- A claim whose statement matches a row of the table.
claim-found :
    (worker now : ℕ) (c x : JobRow) (db : Jobs)
    → IsKeyed db
    → In x db
    → x.id ≡ c.id
    → x.status ≡ c.status
    → let (r, db') = claim worker now c db in
      (r ≡ some (locked worker now x))
      × (db' ≡ map (lock worker now c) db)
      × (get_job c.id db' ≡ some (locked worker now x))
unfolding claim
claim-found worker now c x db h m i s =
    let hit = locks_self c x i s in
    let known = any-In (locks c) x db m hit in
    let read : get_job c.id (map (lock worker now c) db) ≡ some (locked worker now x) =
      get_job-map (lock worker now c) (lock-id worker now c) c.id db
      ∙ ap (λ k. map_option (lock worker now c) (get_job k db)) (sym i)
      ∙ ap (map_option (lock worker now c)) (h x m)
      ∙ ap some (lock-locked worker now c x hit) in
    rw known (read, refl, read)

-- A pending candidate that two workers have read is held by at most one: the second claim matches
-- no row, returns nothing and changes nothing.
pub claim-excludes :
    (first second now later : ℕ) (c : JobRow) (db : Jobs)
    → c.status ≡ pending
    → let db' = (claim first now c db).1 in claim second later c db' ≡ (none, db')
unfolding claim
claim-excludes first second now later c db e = elim (Bool-cases (any (locks c) db)) [
  | inl t ↦ rw (t, no_lock first now c db e) refl
  | inr n ↦ rw (n, n) refl
]

-- A candidate whose lock went stale is claimed by both workers that have read it: the status that
-- the second statement tests is the one that the first has written.
pub claim-stale :
    (first second now later : ℕ) (c : JobRow) (db : Jobs)
    → IsKeyed db
    → In c db
    → c.status ≡ running
    → let (a, db') = claim first now c db in
      let (b, db'') = claim second later c db' in
      (a ≡ some (locked first now c)) × (b ≡ some (locked second later (locked first now c)))
claim-stale first second now later c db h m e =
    let (a, moved, _) = claim-found first now c c db h m refl refl in
    let here : In (locked first now c) (claim first now c db).1 = rw moved (
      rw⁻¹ (lock-locked first now c c (locks_self c c refl refl))
        (In-map (lock first now c) c db m)) in
    let (b, _, _) =
      claim-found second later c (locked first now c) (claim first now c db).1
        (claim-IsKeyed first now c db h) here refl (sym e) in
    (a, b)

-- Claiming the next job returns nothing and changes nothing exactly when no job is claimable;
-- otherwise it locks, for the worker, a claimable job that no claimable job was due before.
pub claim_next-claims :
    (worker now : ℕ) (db : Jobs)
    → IsKeyed db
    → let (r, db') = claim_next worker now db in
      ((r ≡ none) × (db' ≡ db) × ((j : JobRow) → In j db → claimable now j ≡ false))
      ⊎ ((c : JobRow) × In c db
          × (claimable now c ≡ true)
          × ((j : JobRow) → In j db → claimable now j ≡ true → c.run_after ≤ j.run_after)
          × (r ≡ some (locked worker now c))
          × (get_job c.id db' ≡ some (locked worker now c)))
unfolding claim_next candidate
claim_next-claims worker now db h = elim (Option-cases (candidate now db)) [
  | inl e ↦ rw e (inl (refl, refl, λ j m. not_due db j m e))
  | inr (c, e) ↦
      let (listed, due_now) = In-of_filter (claimable now) c db (In-of_head earlier c _ e) in
      let (r, _, stored) = claim-found worker now c c db h listed refl refl in
      rw e (
        inr (
          c,
          listed,
          due_now,
          λ j m k. earliest c j db e (In-filter (claimable now) j db m k),
          r,
          stored,
        ))
]
  where
    not_due : (db : Jobs) (j : JobRow) → In j db → candidate now db ≡ none → claimable now j ≡ false
    not_due db j m e = elim (Bool-cases (claimable now j)) [
      | inl t ↦ absurd (
          head?-ne_none (sort_by earlier (filter (claimable now) db)) j
            (In-sort_by earlier j _ (In-filter (claimable now) j db m t)) e)
      | inr f ↦ f
    ]

    earliest :
        (c j : JobRow) (db : Jobs)
        → candidate now db ≡ some c
        → In j (filter (claimable now) db)
        → c.run_after ≤ j.run_after
    earliest c j db e k =
        let below =
          head-sort_by-le earlier (λ x y n. ground arith) (λ x y z a b. ground arith) c j
            (filter (claimable now) db) e k in
        ground arith
