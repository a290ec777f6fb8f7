-- ===== src/Jobs/Queue/Keys.antt =====
-- The ids of the table of src/lib/jobs/queue.ts as its key, and the queues that its operations reach.
use aijoes_app.Prelude.{
  ℕ, ◌≡◌, ◌∙◌, ap, sym, inl, inr, Option, none, some, [], ◌∷◌, ◌++◌, map, find?, any, arith, In,
  In-of_map, In-of_append, find?-map_of, find?-append_of_some, find?-append_of_none, map_option,
  Bool-cases, ◌==◌,
}
use aijoes_app.Jobs.Queue.{
  JobRow, JobType, Jobs, get_job, with_id, enqueue, claim, claim_next, claim_of, candidate,
  complete_job, fail_job, fail_found, lock, locks, finish, set_failed,
}

-- A row of the table is what is found under its id.
abbrev pub IsKeyed : Jobs → Type 0
IsKeyed db = (j : JobRow) → In j db → get_job j.id db ≡ some j

-- What the table holds after a statement that leaves the ids as they are.
pub get_job-map :
    (f : JobRow → JobRow) (same : (j : JobRow) → (f j).id ≡ j.id) (k : ℕ) (db : Jobs)
    → get_job k (map f db) ≡ map_option f (get_job k db)
unfolding get_job
get_job-map f same k db = find?-map_of (with_id k) f db (λ x. ap (λ i. i == k) (same x))

pub map-IsKeyed :
    (f : JobRow → JobRow) (same : (j : JobRow) → (f j).id ≡ j.id) (db : Jobs)
    → IsKeyed db
    → IsKeyed (map f db)
map-IsKeyed f same db h j m =
    let (x, listed, e) = In-of_map f j db m in
    ap (λ i. get_job i (map f db)) (ap (λ r. r.id) e ∙ same x)
    ∙ get_job-map f same x.id db
    ∙ ap (map_option f) (h x listed)
    ∙ ap some (sym e)

pub lock-id : (worker now : ℕ) (c j : JobRow) → (lock worker now c j).id ≡ j.id
lock-id worker now c j = elim (Bool-cases (locks c j)) [ inl e ↦ rw e | inr e ↦ rw e ]

pub finish-id : (k now : ℕ) (j : JobRow) → (finish k now j).id ≡ j.id
finish-id k now j = elim (Bool-cases (j.id == k)) [ inl e ↦ rw e | inr e ↦ rw e ]

pub set_failed-id :
    (job : JobRow) (error now : ℕ) (j : JobRow) → (set_failed job error now j).id ≡ j.id
set_failed-id job error now j = elim (Bool-cases (j.id == job.id)) [ inl e ↦ rw e | inr e ↦ rw e ]

pub claim-IsKeyed :
    (worker now : ℕ) (c : JobRow) (db : Jobs) → IsKeyed db → IsKeyed (claim worker now c db).1
unfolding claim
claim-IsKeyed worker now c db h = elim (Bool-cases (any (locks c) db)) [
  | inl e ↦ rw e (map-IsKeyed (lock worker now c) (lock-id worker now c) db h)
  | inr e ↦ rw e h
]

claim_of-IsKeyed :
    (worker now : ℕ) (c : Option JobRow) (db : Jobs)
    → IsKeyed db
    → IsKeyed (claim_of worker now c db).1
claim_of-IsKeyed worker now none db h = h
claim_of-IsKeyed worker now (some c) db h = claim-IsKeyed worker now c db h

fail_found-IsKeyed :
    (job : Option JobRow) (error now : ℕ) (db : Jobs)
    → IsKeyed db
    → IsKeyed (fail_found job error now db).1
fail_found-IsKeyed none error now db h = h
fail_found-IsKeyed (some job) error now db h =
    map-IsKeyed (set_failed job error now) (set_failed-id job error now) db h

appended-get_job :
    (db : Jobs) (x : JobRow)
    → get_job x.id db ≡ none
    → (j : JobRow) → j ≡ x
    → get_job j.id (db ++ x ∷ []) ≡ some j
unfolding get_job
appended-get_job db x unused j e =
    ap (λ y. find? (with_id y.id) (db ++ x ∷ [])) e
    ∙ find?-append_of_none (with_id x.id) db _ unused
    ∙ alone
    ∙ ap some (sym e)
  where
    alone : find? (with_id x.id) (x ∷ []) ≡ some x
    alone = ground arith

enqueue-IsKeyed :
    (tenant : ℕ) (type : JobType) (payload : ℕ) (max_attempts run_after : Option ℕ) (fresh now : ℕ)
    (db : Jobs)
    → get_job fresh db ≡ none
    → IsKeyed db
    → IsKeyed (enqueue tenant type payload max_attempts run_after fresh now db)
unfolding enqueue get_job
enqueue-IsKeyed tenant type payload max_attempts run_after fresh now db unused h j m =
    elim (In-of_append j db _ m) [
      | inl old ↦ find?-append_of_some (with_id j.id) db _ j (h j old)
      | inr (inl new) ↦ appended-get_job db _ unused j new
      | inr (inr none_left) ↦ absurd none_left
    ]

pub claim_next-IsKeyed :
    (worker now : ℕ) (db : Jobs) → IsKeyed db → IsKeyed (claim_next worker now db).1
unfolding claim_next
claim_next-IsKeyed worker now db h = claim_of-IsKeyed worker now (candidate now db) db h

pub complete_job-IsKeyed : (k now : ℕ) (db : Jobs) → IsKeyed db → IsKeyed (complete_job k now db)
unfolding complete_job
complete_job-IsKeyed k now db h = map-IsKeyed (finish k now) (finish-id k now) db h

pub fail_job-IsKeyed :
    (k error now : ℕ) (db : Jobs) → IsKeyed db → IsKeyed (fail_job k error now db).1
unfolding fail_job
fail_job-IsKeyed k error now db h = fail_found-IsKeyed (get_job k db) error now db h

-- A queue that the operations have built up, with ids that were not in use.
pub data Reached : Jobs → Type 0 where
  empty : Reached []
  enqueued :
      (tenant : ℕ) (type : JobType) (payload : ℕ) (max_attempts run_after : Option ℕ)
      (fresh now : ℕ) {db : Jobs}
      → Reached db
      → get_job fresh db ≡ none
      → Reached (enqueue tenant type payload max_attempts run_after fresh now db)
  claimed : (worker now : ℕ) {db : Jobs} → Reached db → Reached (claim_next worker now db).1
  completed : (k now : ℕ) {db : Jobs} → Reached db → Reached (complete_job k now db)
  failed : (k error now : ℕ) {db : Jobs} → Reached db → Reached (fail_job k error now db).1

-- In a queue that the operations reach, an id belongs to one row.
pub Reached-IsKeyed : {db : Jobs} → Reached db → IsKeyed db
unfolding claim_next complete_job fail_job
Reached-IsKeyed empty = λ j m. absurd m
Reached-IsKeyed (enqueued tenant type payload max_attempts run_after fresh now {db} r unused) =
    enqueue-IsKeyed tenant type payload max_attempts run_after fresh now db unused
      (Reached-IsKeyed r)
Reached-IsKeyed (claimed worker now {db} r) =
    claim_of-IsKeyed worker now (candidate now db) db (Reached-IsKeyed r)
Reached-IsKeyed (completed k now {db} r) =
    map-IsKeyed (finish k now) (finish-id k now) db (Reached-IsKeyed r)
Reached-IsKeyed (failed k error now {db} r) =
    fail_found-IsKeyed (get_job k db) error now db (Reached-IsKeyed r)
