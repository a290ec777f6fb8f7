-- ===== src/Jobs/Runner.antt =====
-- src/lib/jobs/runner.ts: `tick` and `drain`. The handlers of src/lib/jobs/handlers.ts are a
-- parameter: a handler changes the table and ends well or with an error. The clock gives the instant
-- of each round.
pub mod Rounds
use aijoes_app.Prelude.{ℕ, zero, suc, ◌+◌, Bool, true, false, Option, none, some, if◌then◌else◌}
use aijoes_app.Jobs.Queue.{Jobs, JobRow, JobType, claim_next, complete_job, fail_job}

abbrev pub Handler : Type 0
Handler = JobRow → Jobs → Option ℕ × Jobs

-- The error text of a job without a handler.
abbrev pub no_handler : ℕ
no_handler = 1

abbrev pub settle : JobRow → ℕ → Option ℕ × Jobs → Jobs
settle j now (none, db) = complete_job j.id now db
settle j now (some e, db) = (fail_job j.id e now db).1

abbrev pub handle : JobRow → ℕ → Option Handler → Jobs → Jobs
handle j now none db = (fail_job j.id no_handler now db).1
handle j now (some f) db = settle j now (f j db)

abbrev pub tick_with : (JobType → Option Handler) → ℕ → Option JobRow × Jobs → Bool × Jobs
tick_with handlers now (none, db) = (false, db)
tick_with handlers now (some j, db) = (true, handle j now (handlers j.type) db)

unfoldable pub tick : (JobType → Option Handler) → ℕ → ℕ → Jobs → Bool × Jobs
tick handlers worker now db = tick_with handlers now (claim_next worker now db)

-- The number of jobs processed: `max_jobs` rounds at most, until a round finds no job.
unfoldable pub drain : (JobType → Option Handler) → ℕ → (ℕ → ℕ) → ℕ → Jobs → ℕ × Jobs
drain handlers worker clock zero db = (0, db)
drain handlers worker clock (suc left) db =
    let (did, db') = tick handlers worker (clock left) db in
    let (processed, db'') = drain handlers worker clock left db' in
    if did then (processed + 1, db'') else (0, db')
