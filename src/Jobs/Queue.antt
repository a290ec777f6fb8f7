-- ===== src/Jobs/Queue.antt =====
-- src/lib/jobs/queue.ts: the durable queue of jobs. An instant is its number of milliseconds (the
-- ISO texts that the table compares are in the same order); `Database` is the list of its rows in
-- the order of insertion. The number of an error is that of its first 2,000 characters, which the
-- table keeps.
pub mod Keys
pub mod Claims
pub mod Life
use aijoes_app.Prelude.{
  ℕ, ◌+◌, ◌*◌, ◌^◌, min, Bool, true, false, ◌&&◌, Option, none, some, get_or, List, [], ◌∷◌, ◌++◌,
  map, filter, find?, head?, any, sort_by, length, ltb, leb, ◌==◌, if◌then◌else◌,
}

pub data JobType : Type 0 where
  analysis execution verification : JobType

pub data JobStatus : Type 0 where
  pending running succeeded failed dead : JobStatus

abbrev pub status_number : JobStatus → ℕ
status_number pending = 0
status_number running = 1
status_number succeeded = 2
status_number failed = 3
status_number dead = 4

abbrev pub same_status : JobStatus → JobStatus → Bool
same_status a b = status_number a == status_number b

pub record JobRow : Type 0 where
  pub id : ℕ
  pub tenant_id : ℕ
  pub type : JobType
  pub payload : ℕ
  pub status : JobStatus
  pub attempts : ℕ
  pub max_attempts : ℕ
  pub run_after : ℕ
  pub locked_at : Option ℕ
  pub locked_by : Option ℕ
  pub last_error : Option ℕ
  pub created_at : ℕ
  pub updated_at : ℕ

abbrev pub Jobs : Type 0
Jobs = List JobRow

abbrev pub lock_timeout_ms : ℕ
lock_timeout_ms = 5 * 60_000

abbrev pub with_id : ℕ → JobRow → Bool
with_id k j = j.id == k

unfoldable pub get_job : ℕ → Jobs → Option JobRow
get_job k db = find? (with_id k) db

-- The clock is read twice, for `run_after` and for the times of the row; both are `now`.
unfoldable pub enqueue : ℕ → JobType → ℕ → Option ℕ → Option ℕ → ℕ → ℕ → Jobs → Jobs
enqueue tenant type payload max_attempts run_after fresh now db =
    db
    ++ record {
      id = fresh;
      tenant_id = tenant;
      type = type;
      payload = payload;
      status = pending;
      attempts = 0;
      max_attempts = get_or max_attempts 3;
      run_after = get_or run_after now;
      locked_at = none;
      locked_by = none;
      last_error = none;
      created_at = now;
      updated_at = now;
    }
      ∷ []

abbrev pub enqueue_analysis : ℕ → ℕ → ℕ → ℕ → Jobs → Jobs
enqueue_analysis tenant payload fresh now db =
    enqueue tenant analysis payload (some 2) none fresh now db

-- `locked_at IS NOT NULL AND locked_at < staleBefore`, where an instant before 1970 is none.
abbrev pub stale : Option ℕ → ℕ → Bool
stale none now = false
stale (some t) now = ltb (t + lock_timeout_ms) now

abbrev pub due : JobStatus → ℕ → Option ℕ → ℕ → Bool
due pending run_after locked_at now = leb run_after now
due running run_after locked_at now = stale locked_at now
due _ run_after locked_at now = false

abbrev pub claimable : ℕ → JobRow → Bool
claimable now j = due j.status j.run_after j.locked_at now

abbrev pub earlier : JobRow → JobRow → Bool
earlier a b = leb a.run_after b.run_after

-- `SELECT ... ORDER BY run_after ASC LIMIT 1`
unfoldable pub candidate : ℕ → Jobs → Option JobRow
candidate now db = head? (sort_by earlier (filter (claimable now) db))

-- `UPDATE jobs SET status = 'running' ... WHERE id = ? AND status = ?`
abbrev pub lock : ℕ → ℕ → JobRow → JobRow → JobRow
lock worker now c j =
    if j.id == c.id && same_status j.status c.status
    then record j {
      status = running;
      locked_at = some now;
      locked_by = some worker;
      attempts = j.attempts + 1;
      updated_at = now;
    }
    else j

abbrev pub locks : JobRow → JobRow → Bool
locks c j = j.id == c.id && same_status j.status c.status

-- The statement that claims a candidate that was read before; `changes` is whether a row matched.
unfoldable pub claim : ℕ → ℕ → JobRow → Jobs → Option JobRow × Jobs
claim worker now c db =
    if any (locks c) db
    then (get_job c.id (map (lock worker now c) db), map (lock worker now c) db)
    else (none, db)

abbrev pub claim_of : ℕ → ℕ → Option JobRow → Jobs → Option JobRow × Jobs
claim_of worker now none db = (none, db)
claim_of worker now (some c) db = claim worker now c db

unfoldable pub claim_next : ℕ → ℕ → Jobs → Option JobRow × Jobs
claim_next worker now db = claim_of worker now (candidate now db) db

abbrev pub finish : ℕ → ℕ → JobRow → JobRow
finish k now j =
    if j.id == k
    then record j { status = succeeded; locked_at = none; locked_by = none; updated_at = now }
    else j

unfoldable pub complete_job : ℕ → ℕ → Jobs → Jobs
complete_job k now db = map (finish k now) db

-- `Math.min(5 * 60_000, 2 ** attempts * 1_000)`
unfoldable pub backoff_ms : ℕ → ℕ
backoff_ms attempts = min (5 * 60_000) (2 ^ attempts * 1_000)

abbrev pub set_failed : JobRow → ℕ → ℕ → JobRow → JobRow
set_failed job error now j =
    if j.id == job.id
    then record j {
      status = if leb job.max_attempts job.attempts then dead else pending;
      last_error = some error;
      run_after = now + backoff_ms job.attempts;
      locked_at = none;
      locked_by = none;
      updated_at = now;
    }
    else j

abbrev pub fail_found : Option JobRow → ℕ → ℕ → Jobs → Option JobRow × Jobs
fail_found none error now db = (none, db)
fail_found (some job) error now db =
    (get_job job.id (map (set_failed job error now) db), map (set_failed job error now) db)

unfoldable pub fail_job : ℕ → ℕ → ℕ → Jobs → Option JobRow × Jobs
fail_job k error now db = fail_found (get_job k db) error now db

abbrev pub is_open : JobStatus → Bool
is_open pending = true
is_open running = true
is_open _ = false

unfoldable pub pending_count : Jobs → ℕ
pending_count db = length (filter (λ j. is_open j.status) db)
