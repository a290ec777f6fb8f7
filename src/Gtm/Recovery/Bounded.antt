-- ===== src/Gtm/Recovery/Bounded.antt =====
-- `withRecovery` of src/lib/gtm/recovery.ts: how often it calls the operation, and what it leaves.
use aijoes_app.Prelude.{
  ℕ, zero, suc, ◌+◌, ◌-◌, ◌≤◌, ◌<◌, true, false, ◌≡◌, refl, ap, inl, inr, Option, none, some, List,
  [], ◌∷◌, ◌++◌, length, map, arith, Bool-cases, ◌⊎◌,
}
use aijoes_app.Gtm.Recovery.{
  FailureKind, RecoveryDecision, Thrown, rate_limited, timeout, classify, same_kind,
}
use aijoes_app.Gtm.Recovery.Rules.{most_retries, decide-retries}
use aijoes_app.Gtm.Recovery.Table.{
  Operation, Failures, Outcome, returned, threw, retries, rounds, round, with_recovery, Recovered,
  record_failure, resolve_failures, prior_attempts,
}
use aijoes_app.Gtm.Recovery.Counts.{
  one_if, prior_attempts-record_failure, prior_attempts-resolve_failures,
}

-- The retries that the unresolved failures leave.
abbrev pub retries_left : Operation → Failures → ℕ
retries_left o db = (5 - prior_attempts o rate_limited db) + (3 - prior_attempts o timeout db)

spends :
    (k : FailureKind) (p : FailureKind → ℕ)
    → p k < most_retries k
    → suc (
        (5 - (p rate_limited + one_if (same_kind k rate_limited)))
        + (3 - (p timeout + one_if (same_kind k timeout))))
      ≡ (5 - p rate_limited) + (3 - p timeout)
spends k p h = ground arith

-- A failure that is retried uses one of the retries that were left.
retries_left-record_failure :
    (o : Operation) (error : Thrown) (fresh now : ℕ) (db : Failures)
    → retries (record_failure o error fresh now db).0 ≡ true
    → suc (retries_left o (record_failure o error fresh now db).1) ≡ retries_left o db
unfolding record_failure
retries_left-record_failure o error fresh now db h =
    let k = classify error in
    let p : FailureKind → ℕ = λ i. prior_attempts o i db in
    let more : p k < most_retries k = (decide-retries k (p k)).0 h in
    rw
      (
        prior_attempts-record_failure o rate_limited error fresh now db,
        prior_attempts-record_failure o timeout error fresh now db,
      )
      (spends k p more)

module _ {A : Type 0} (o : Operation) (fn : ℕ → Outcome A) (fresh now : ℕ → ℕ) where
  -- What the loop comes to, from the decisions before it and the table: the operation returned and
  -- no failure of it is counted any more, or the last failure is one that is not retried.
  abbrev pub Ends : Option A → List RecoveryDecision → Failures → Type 0
  Ends value ds db =
      ((v : A) × (n : ℕ) × (fn n ≡ returned v)
        × (value ≡ some v)
        × ((k : FailureKind) → prior_attempts o k db ≡ 0))
      ⊎ ((value ≡ none)
          × ((before : List RecoveryDecision) × (d : RecoveryDecision) × (ds ≡ before ++ d ∷ [])
              × (retries d ≡ false)))

  abbrev pub Bounded : Option (Recovered o fn fresh now) → List RecoveryDecision → Failures → Type 0
  Bounded result ds db =
      (value : Option A) × (ds' : List RecoveryDecision) × (db' : Failures) × (result
        ≡ some (value, ds', db'))
      × (length ds' ≤ length ds + retries_left o db + 1)
      × (length db' + length ds ≡ length db + length ds')
      × Ends value ds' db'

  length-append : {B : Type 0} (xs : List B) (x : B) → length (xs ++ x ∷ []) ≡ suc (length xs)
  length-append [] x = refl
  length-append (y ∷ xs) x = ap suc (length-append xs x)

  length-map : {B : Type 0} (f : B → B) (xs : List B) → length (map f xs) ≡ length xs
  length-map f [] = refl
  length-map f (x ∷ xs) = ap suc (length-map f xs)

  length-record_failure :
      (error : Thrown) (id at : ℕ) (db : Failures)
      → length (record_failure o error id at db).1 ≡ suc (length db)
  unfolding record_failure
  length-record_failure error id at db = length-append db _

  length-resolve_failures : (db : Failures) → length (resolve_failures o db) ≡ length db
  unfolding resolve_failures
  length-resolve_failures db = length-map _ db

  round-Bounded :
      (fuel n : ℕ) (ds : List RecoveryDecision) (db : Failures) (outcome : Outcome A)
      (again : List RecoveryDecision → Failures → Option (Recovered o fn fresh now))
      → ((ds : List RecoveryDecision) (db : Failures)
          → retries_left o db < fuel
          → Bounded (again ds db) ds db)
      → fn n ≡ outcome
      → retries_left o db < suc fuel
      → Bounded (round o fn fresh now again n ds db outcome) ds db
  round-Bounded fuel n ds db (returned v) again rest is h = (
    some v,
    ds,
    resolve_failures o db,
    refl,
    omega arith,
    rw (length-resolve_failures db) refl,
    inl (v, n, is, refl, λ k. prior_attempts-resolve_failures o k db),
  )
  round-Bounded fuel n ds db (threw error) again rest is h =
      let d = (record_failure o error (fresh n) (now n) db).0 in
      let db' = (record_failure o error (fresh n) (now n) db).1 in
      let longer = length-append ds d in
      let written = length-record_failure error (fresh n) (now n) db in
      elim (Bool-cases (retries d)) [
        | inl e ↦
            let spent = retries_left-record_failure o error (fresh n) (now n) db e in
            let (value, ds', db'', result, few, rows, ends) =
              rest (ds ++ d ∷ []) db' (omega arith) in
            (value, ds', db'', rw e result, omega arith, omega arith, ends)
        | inr e ↦ (
          none,
          ds ++ d ∷ [],
          db',
          rw e refl,
          omega arith,
          omega arith,
          inr (refl, (ds, d, refl, e)),
        )
      ]

  pub rounds-Bounded :
      (fuel n : ℕ) (ds : List RecoveryDecision) (db : Failures)
      → retries_left o db < fuel
      → Bounded (rounds o fn fresh now fuel n ds db) ds db
  unfolding rounds
  rounds-Bounded zero n ds db h = absurd (omega arith)
  rounds-Bounded (suc fuel) n ds db h =
      round-Bounded fuel n ds db (fn n) (rounds o fn fresh now fuel (suc n))
        (rounds-Bounded fuel (suc n)) refl h

  -- Whatever the operation does, the loop comes to an end within nine calls of it. Every failure is
  -- decided about and recorded as one row, at most one more than the retries that were left. In the
  -- end either a call returned, its value is the result and no failure of the operation is counted
  -- any more, or there is no value and the last decision is one that does not retry.
  pub with_recovery-Ends :
      (db : Failures)
      → (value : Option A) × (ds : List RecoveryDecision) × (db' : Failures) × (with_recovery o fn
            fresh now 9 db
          ≡ some (value, ds, db'))
        × (length ds ≤ retries_left o db + 1)
        × (length db' ≡ length db + length ds)
        × Ends value ds db'
  unfolding with_recovery
  with_recovery-Ends db =
      let (value, ds, db', result, few, rows, ends) = rounds-Bounded 9 0 [] db (omega arith) in
      (value, ds, db', result, omega arith, omega arith, ends)
