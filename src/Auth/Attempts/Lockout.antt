-- ===== src/Auth/Attempts/Lockout.antt =====
-- `lockoutState` of src/lib/auth/attempts.ts: when a key is locked.
use aijoes_app.Prelude.{
  ℕ, suc, Bool, All, ◌+◌, ◌≤◌, ◌<◌, true, false, ◌≡◌, ◌≢◌, refl, ◌∙◌, ap, ◌⊎◌, inl, inr, List, [],
  ◌∷◌, ◌++◌, filter, All-filter, length, sort_by, arith, Bool-cases, ◌==◌,
}
use aijoes_app.Auth.Attempts.{
  Attempt, lockout_state, recent, recent_attempts, newer, failures_of, state_of, record_attempt,
  clear_attempts,
}

-- Rows of other keys do not show.
filter-clear_attempts :
    (key now : ℕ) (rows : List Attempt) → filter (recent key now) (clear_attempts key rows) ≡ []
unfolding clear_attempts
filter-clear_attempts key now [] = refl
filter-clear_attempts key now (a ∷ rows) = elim (Bool-cases (a.key == key)) [
  | inl e ↦ rw (e) (filter-clear_attempts key now rows)
  | inr e ↦ rw (e, e) (filter-clear_attempts key now rows)
]

filter-other :
    (key other now : ℕ) (ok : Bool) (later : ℕ) (rows : List Attempt)
    → other ≢ key
    → filter (recent key now) (record_attempt other ok later rows) ≡ filter (recent key now) rows
unfolding record_attempt
filter-other key other now ok later [] ne = ground arith
filter-other key other now ok later (a ∷ rows) ne = elim (Bool-cases (recent key now a)) [
  | inl e ↦ rw (e, filter-other key other now ok later rows ne) refl
  | inr e ↦ rw (e, filter-other key other now ok later rows ne) refl
]

-- Clearing the attempts of a key unlocks it, and an attempt on one key never changes the state of
-- another.
pub lockout_state-keys :
    (key other now later : ℕ) (rows : List Attempt)
    → other ≢ key
    → ((lockout_state key now (clear_attempts key rows)).locked ≡ false)
      × (lockout_state key now (record_attempt other true later rows) ≡ lockout_state key now rows)
      × (lockout_state key now (record_attempt other false later rows) ≡ lockout_state key now rows)
unfolding lockout_state recent_attempts failures_of
lockout_state-keys key other now later rows ne = (
  rw (filter-clear_attempts key now rows) refl,
  rw (filter-other key other now true later rows ne) refl,
  rw (filter-other key other now false later rows ne) refl,
)

filter-append :
    (p : Attempt → Bool) (rows : List Attempt) (a : Attempt)
    → p a ≡ true
    → filter p (rows ++ a ∷ []) ≡ filter p rows ++ a ∷ []
filter-append p [] a e = rw e refl
filter-append p (r ∷ rows) a e = elim (Bool-cases (p r)) [
  | inl t ↦ rw (t, filter-append p rows a e) refl
  | inr t ↦ rw (t, filter-append p rows a e) refl
]

-- The newest attempt comes first.
sort_by-newest :
    (rows : List Attempt) (a : Attempt)
    → All (λ r. r.at < a.at) rows
    → sort_by newer (rows ++ a ∷ []) ≡ a ∷ sort_by newer rows
sort_by-newest [] a h = refl
sort_by-newest (r ∷ rows) a h =
    let older : newer r a ≡ false = below r a h.0 in rw (sort_by-newest rows a h.1, older) refl
  where
    below : (r a : Attempt) → r.at < a.at → newer r a ≡ false
    below r a k = ground arith

recent_attempts-record_attempt :
    (key : ℕ) (ok : Bool) (later now : ℕ) (rows : List Attempt)
    → All (λ r. r.at < later) rows
    → now ≤ later + 900_000
    → recent_attempts key now (record_attempt key ok later rows)
      ≡ record { key = key; at = later; succeeded = ok } ∷ recent_attempts key now rows
unfolding recent_attempts record_attempt
recent_attempts-record_attempt key ok later now rows h soon =
    let a : Attempt = record { key = key; at = later; succeeded = ok } in
    ap (sort_by newer) (filter-append (recent key now) rows a (ground arith))
    ∙ sort_by-newest (filter (recent key now) rows) a
        (All-filter (λ r. r.at < later) (recent key now) rows h)

state_of-locked :
    (now : ℕ) (rows : List Attempt)
    → let s = state_of now rows in
      (s.failures ≡ length rows)
      × (((s.locked ≡ false) × (length rows < 8) × (s.retry_after_seconds ≡ 0))
          ⊎ ((s.locked ≡ true) × (8 ≤ length rows) × (1 ≤ s.retry_after_seconds)))
state_of-locked now rows = ground arith

-- Asked within fifteen minutes of an attempt that is later than all others: if it was successful, the
-- key is open, whatever failed before; if it failed, it adds one to the failures that are counted.
-- The key is locked exactly from the eighth failure on, and is then to be tried again after at least
-- one second.
pub lockout_state-counts :
    (key later now : ℕ) (rows : List Attempt)
    → All (λ r. r.at < later) rows
    → now ≤ later + 900_000
    → let s = lockout_state key now (record_attempt key false later rows) in
      ((lockout_state key now (record_attempt key true later rows)).locked ≡ false)
      × (s.failures ≡ suc (lockout_state key now rows).failures)
      × (((s.locked ≡ false) × (s.failures < 8))
          ⊎ ((s.locked ≡ true) × (8 ≤ s.failures) × (1 ≤ s.retry_after_seconds)))
unfolding lockout_state failures_of
lockout_state-counts key later now rows h soon =
    let before = failures_of (recent_attempts key now rows) in
    let after = failures_of (recent_attempts key now (record_attempt key false later rows)) in
    let more : length after ≡ suc (length before) =
      ap (λ l. length (failures_of l))
        (recent_attempts-record_attempt key false later now rows h soon) in
    let (count, split) = state_of-locked now after in
    let (count', _) = state_of-locked now before in
    (
      rw (recent_attempts-record_attempt key true later now rows h soon) refl,
      omega arith,
      elim split [
        | inl (free, few, _) ↦ inl (free, omega arith)
        | inr (shut, many, wait) ↦ inr (shut, omega arith, wait)
      ],
    )
