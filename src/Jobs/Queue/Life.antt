-- ===== src/Jobs/Queue/Life.antt =====
-- The states of a job of src/lib/jobs/queue.ts, its lock and its attempts.
use aijoes_app.Prelude.{
  ℕ, zero, suc, ◌+◌, ◌^◌, ◌≤◌, ◌<◌, true, ◌≡◌, ◌≢◌, refl, ◌∙◌, ap, sym, ◌⊎◌, inl, inr, Option, none,
  some, is_some, map, any, arith, In, In-of_map, In-of_append, map_option, find?-eq_some,
  Bool-cases, Option-cases, leb, ◌==◌,
}
use aijoes_app.Jobs.Queue.{
  JobRow, JobType, Jobs, pending, running, dead, get_job, with_id, enqueue, claim, claim_next,
  claim_of, candidate, complete_job, fail_job, fail_found, lock, locks, finish, set_failed,
  backoff_ms,
}
use aijoes_app.Jobs.Queue.Keys.{
  set_failed-id, IsKeyed, get_job-map, Reached, empty, enqueued, claimed, completed, failed,
  Reached-IsKeyed,
}

-- A job that runs has a lock and was attempted; any other has no lock, and a dead one has no
-- attempts left.
abbrev pub IsSound : JobRow → Type 0
IsSound j =
    ((j.status ≡ running)
      × (is_some j.locked_at ≡ true)
      × (is_some j.locked_by ≡ true)
      × (1 ≤ j.attempts))
    ⊎ ((j.status ≢ running)
        × (j.locked_at ≡ none)
        × (j.locked_by ≡ none)
        × (j.status ≡ dead → j.max_attempts ≤ j.attempts))

abbrev AllSound : Jobs → Type 0
AllSound db = (j : JobRow) → In j db → IsSound j

lock-IsSound : (worker now : ℕ) (c j : JobRow) → IsSound j → IsSound (lock worker now c j)
lock-IsSound worker now c j h = elim (Bool-cases (locks c j)) [
  | inl e ↦ rw e (inl (refl, refl, refl, omega arith))
  | inr e ↦ rw e h
]

finish-IsSound : (k now : ℕ) (j : JobRow) → IsSound j → IsSound (finish k now j)
finish-IsSound k now j h = elim (Bool-cases (j.id == k)) [
  | inl e ↦ rw e (inr (λ x. cc, refl, refl, λ x. absurd (cc)))
  | inr e ↦ rw e h
]

-- The row that is written is the one that was read, since the id is a key.
set_failed-IsSound :
    (job : JobRow) (error now : ℕ) (j : JobRow)
    → (j.id ≡ job.id → j.attempts ≡ job.attempts)
    → (j.id ≡ job.id → j.max_attempts ≡ job.max_attempts)
    → IsSound j
    → IsSound (set_failed job error now j)
set_failed-IsSound job error now j tries most h = elim (Bool-cases (j.id == job.id)) [
  | inl e ↦ elim (Bool-cases (leb job.max_attempts job.attempts)) [
    | inl full ↦
        let same : j.id ≡ job.id = ground arith in
        let a = tries same in
        let m = most same in rw (e, full) (inr (λ x. cc, refl, refl, λ x. ground arith))
    | inr more ↦ rw (e, more) (inr (λ x. cc, refl, refl, λ x. absurd (cc)))
  ]
  | inr e ↦ rw e h
]

map-AllSound :
    (f : JobRow → JobRow) (db : Jobs)
    → ((j : JobRow) → In j db → IsSound (f j))
    → AllSound (map f db)
map-AllSound f db h j m = let (x, listed, e) = In-of_map f j db m in rw e (h x listed)

claim_of-AllSound :
    (worker now : ℕ) (c : Option JobRow) (db : Jobs)
    → AllSound db
    → AllSound (claim_of worker now c db).1
unfolding claim
claim_of-AllSound worker now none db h = h
claim_of-AllSound worker now (some c) db h = elim (Bool-cases (any (locks c) db)) [
  | inl e ↦ rw e (map-AllSound (lock worker now c) db (λ j m. lock-IsSound worker now c j (h j m)))
  | inr e ↦ rw e h
]

some-inj : (x y : JobRow) → some x ≡ some y → x ≡ y
some-inj x y e = cc

fail_found-AllSound :
    (k : ℕ) (job : Option JobRow) (error now : ℕ) (db : Jobs)
    → get_job k db ≡ job
    → IsKeyed db
    → AllSound db
    → AllSound (fail_found job error now db).1
unfolding get_job
fail_found-AllSound k none error now db e keyed h = h
fail_found-AllSound k (some job) error now db e keyed h =
    let (listed, _) = find?-eq_some (with_id k) job db e in
    map-AllSound (set_failed job error now) db (λ j m.
      set_failed-IsSound job error now j (λ i. ap (λ r. r.attempts) (same j m listed i))
        (λ i. ap (λ r. r.max_attempts) (same j m listed i)) (h j m))
  where
    same : (j : JobRow) → In j db → In job db → j.id ≡ job.id → j ≡ job
    same j m n i = some-inj j job (sym (keyed j m) ∙ ap (λ k. get_job k db) i ∙ keyed job n)

enqueue-AllSound :
    (tenant : ℕ) (type : JobType) (payload : ℕ) (max_attempts run_after : Option ℕ) (fresh now : ℕ)
    (db : Jobs)
    → AllSound db
    → AllSound (enqueue tenant type payload max_attempts run_after fresh now db)
unfolding enqueue
enqueue-AllSound tenant type payload max_attempts run_after fresh now db h j m =
    elim (In-of_append j db _ m) [
      | inl old ↦ h j old
      | inr (inl new) ↦ rw new (inr (λ x. cc, refl, refl, λ x. absurd (cc)))
      | inr (inr none_left) ↦ absurd none_left
    ]

-- In a queue that the operations reach, a job is locked by a worker exactly while it is running, a
-- running job was attempted at least once, and a dead job has used up its attempts.
pub Reached-IsSound : {db : Jobs} → Reached db → (j : JobRow) → In j db → IsSound j
unfolding claim_next complete_job fail_job
Reached-IsSound empty = λ j m. absurd m
Reached-IsSound (enqueued tenant type payload max_attempts run_after fresh now {db} r unused) =
    enqueue-AllSound tenant type payload max_attempts run_after fresh now db (Reached-IsSound r)
Reached-IsSound (claimed worker now {db} r) =
    claim_of-AllSound worker now (candidate now db) db (Reached-IsSound r)
Reached-IsSound (completed k now {db} r) =
    map-AllSound (finish k now) db (λ j m. finish-IsSound k now j (Reached-IsSound r j m))
Reached-IsSound (failed k error now {db} r) =
    fail_found-AllSound k (get_job k db) error now db refl (Reached-IsKeyed r) (Reached-IsSound r)

pow_pos : (n : ℕ) → 1 ≤ 2 ^ n
pow_pos zero = omega arith
pow_pos (suc n) = omega (arith, pow_pos n)

backoff_ms-bounds : (n : ℕ) → (1000 ≤ backoff_ms n) × (backoff_ms n ≤ 300_000)
unfolding backoff_ms
backoff_ms-bounds n = let p = pow_pos n in (ground arith, ground arith)

get_job-id : (k : ℕ) (db : Jobs) (j : JobRow) → get_job k db ≡ some j → j.id ≡ k
unfolding get_job
get_job-id k db j e = let (_, same) = find?-eq_some (with_id k) j db e in ground arith

set_failed_self :
    (j : JobRow) (error now : ℕ)
    → let j' = set_failed j error now j in
      (j'.last_error ≡ some error)
      × (j'.locked_at ≡ none)
      × (j'.locked_by ≡ none)
      × (j'.attempts ≡ j.attempts)
      × (((j'.status ≡ dead) × (j.max_attempts ≤ j.attempts))
          ⊎ ((j'.status ≡ pending) × (j.attempts < j.max_attempts)))
      × (j'.run_after ≡ now + backoff_ms j.attempts)
set_failed_self j error now =
    let own : (j.id == j.id) ≡ true = ground arith in
    rw own (refl, refl, refl, refl, ground arith, refl)

-- Where the job is in the table, failing it clears its lock and records the error; the job is dead
-- if its attempts are used up and otherwise pending again, due between one second and five minutes
-- later. Where it is not, nothing changes.
pub fail_job-retries :
    (k error now : ℕ) (db : Jobs)
    → let (r, db') = fail_job k error now db in
      ((get_job k db ≡ none) × (r ≡ none) × (db' ≡ db))
      ⊎ ((j : JobRow) × (get_job k db ≡ some j)
          × ((j' : JobRow) × (r ≡ some j')
              × (get_job k db' ≡ some j')
              × (j'.last_error ≡ some error)
              × (j'.locked_at ≡ none)
              × (j'.locked_by ≡ none)
              × (j'.attempts ≡ j.attempts)
              × (((j'.status ≡ dead) × (j.max_attempts ≤ j.attempts))
                  ⊎ ((j'.status ≡ pending) × (j.attempts < j.max_attempts)))
              × (now + 1000 ≤ j'.run_after)
              × (j'.run_after ≤ now + 300_000)))
unfolding fail_job
fail_job-retries k error now db = elim (Option-cases (get_job k db)) [
  | inl e ↦ rw e (inl (refl, refl, refl))
  | inr (j, e) ↦
      let j' = set_failed j error now j in
      let (note, at, by, tries, next, due) = set_failed_self j error now in
      let (low, high) = backoff_ms-bounds j.attempts in
      let read =
        get_job-map (set_failed j error now) (set_failed-id j error now) k db
        ∙ ap (map_option (set_failed j error now)) e in
      let own = get_job-id k db j e in
      rw e (
        inr (
          j,
          refl,
          (
            j',
            ap (λ i. get_job i (map (set_failed j error now) db)) own ∙ read,
            read,
            note,
            at,
            by,
            tries,
            next,
            omega arith,
            omega arith,
          ),
        ))
]
