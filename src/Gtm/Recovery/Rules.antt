-- ===== src/Gtm/Recovery/Rules.antt =====
-- `RECOVERY_RULES` and `decide` of src/lib/gtm/recovery.ts: which failures are retried, how often
-- and after how long.
use aijoes_app.Prelude.{ℕ, suc, ◌≤◌, ◌<◌, true, false, ◌≡◌, ◌↔◌, arith}
use aijoes_app.Gtm.Recovery.{
  FailureKind, rate_limited, timeout, unknown, rule_for, decide, escalate,
}
use aijoes_app.Gtm.Recovery.Table.{retries}

-- The number of attempts after which a kind of failure is no longer retried.
abbrev pub most_retries : FailureKind → ℕ
most_retries rate_limited = 5
most_retries timeout = 3
most_retries _ = 0

-- Every kind of failure has a rule of its own, and only an unknown failure stops the run.
pub rule_for-kind :
    (k : FailureKind) → ((rule_for k).kind ≡ k) × (((rule_for k).continues ≡ false) ↔ (k ≡ unknown))
unfolding rule_for
rule_for-kind k = ground arith

pub decide-kind : (k : FailureKind) (attempt : ℕ) → (decide k attempt).kind ≡ k
unfolding decide rule_for
decide-kind k attempt = ground arith

pub decide-retries :
    (k : FailureKind) (n : ℕ) → (retries (decide k (suc n)) ≡ true) ↔ (n < most_retries k)
unfolding decide rule_for
decide-retries k n = ground arith

-- The wait of a failure that is retried.
abbrev pub wait : FailureKind → ℕ → ℕ
wait k n = (decide k (suc n)).wait_ms

-- A failure is retried exactly while its kind has attempts left, which only a rate limit and a
-- timeout have. A retry waits between two seconds and ten minutes, and no less than the retry
-- before it; whatever is not retried waits for nothing, and a failure whose attempts are spent goes
-- to a person.
pub decide-waits :
    (k : FailureKind) (n : ℕ)
    → ((retries (decide k (suc n)) ≡ true) ↔ (n < most_retries k))
      × (n < most_retries k → (2_000 ≤ wait k n) × (wait k n ≤ 600_000))
      × (suc n < most_retries k → wait k n ≤ wait k (suc n))
      × (most_retries k ≤ n → wait k n ≡ 0)
      × ((decide k (suc n)).exhausted ≡ true → (decide k (suc n)).action ≡ escalate)
unfolding decide rule_for
decide-waits k n = ground arith
