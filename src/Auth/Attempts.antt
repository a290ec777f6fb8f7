-- ===== src/Auth/Attempts.antt =====
-- src/lib/auth/attempts.ts: the failures of a sign-in that lock its key for a while. A key is a
-- number; an instant before 1970 is none, so the window starts at 0 where it would be earlier.
pub mod Lockout
use aijoes_app.Prelude.{
  ℕ, ◌+◌, ◌-◌, ◌*◌, ◌/◌, Bool, true, false, ◌&&◌, not, List, [], ◌∷◌, ◌++◌, filter, length, sort_by,
  leb, ltb, ◌==◌, if◌then◌else◌,
}

abbrev pub window_minutes : ℕ
window_minutes = 15

abbrev pub max_failures : ℕ
max_failures = 8

pub record Attempt : Type 0 where
  pub key : ℕ
  pub at : ℕ
  pub succeeded : Bool

unfoldable pub record_attempt : ℕ → Bool → ℕ → List Attempt → List Attempt
record_attempt key succeeded now rows =
    rows ++ record { key = key; at = now; succeeded = succeeded } ∷ []

pub record LockoutState : Type 0 where
  pub locked : Bool
  pub failures : ℕ
  pub retry_after_seconds : ℕ

abbrev pub recent : ℕ → ℕ → Attempt → Bool
recent key now a = a.key == key && leb (now - window_minutes * 60_000) a.at

abbrev pub newer : Attempt → Attempt → Bool
newer a b = leb b.at a.at

-- `SELECT ... WHERE key = ? AND at >= ? ORDER BY at DESC`
unfoldable pub recent_attempts : ℕ → ℕ → List Attempt → List Attempt
recent_attempts key now rows = sort_by newer (filter (recent key now) rows)

-- The loop over the rows: the failures before the first success.
unfoldable pub failures_of : List Attempt → List Attempt
failures_of [] = []
failures_of (a ∷ rows) = let rest = failures_of rows in if a.succeeded then [] else a ∷ rest

-- `failures[failures.length - 1].at`
abbrev pub oldest_at : ℕ → List Attempt → ℕ
oldest_at d [] = d
oldest_at d (a ∷ rows) = oldest_at a.at rows

-- `Math.max(1, Math.ceil((unlockAt - Date.now()) / 1000))`
abbrev pub retry_after : ℕ → ℕ → ℕ
retry_after unlock_at now = let s = (unlock_at - now + 999) / 1000 in if ltb s 1 then 1 else s

abbrev pub state_of : ℕ → List Attempt → LockoutState
state_of now failures =
    if ltb (length failures) max_failures
    then record { locked = false; failures = length failures; retry_after_seconds = 0 }
    else record {
      locked = true;
      failures = length failures;
      retry_after_seconds = retry_after (oldest_at 0 failures + window_minutes * 60_000) now;
    }

unfoldable pub lockout_state : ℕ → ℕ → List Attempt → LockoutState
lockout_state key now rows = state_of now (failures_of (recent_attempts key now rows))

unfoldable pub clear_attempts : ℕ → List Attempt → List Attempt
clear_attempts key rows = filter (λ a. not (a.key == key)) rows
