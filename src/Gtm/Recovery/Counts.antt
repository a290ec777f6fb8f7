-- ===== src/Gtm/Recovery/Counts.antt =====
-- `priorAttempts` of src/lib/gtm/recovery.ts after what the other functions do to the table.
use aijoes_app.Prelude.{
  ℕ, ◌+◌, Bool, true, false, ◌≡◌, refl, ap, ◌∙◌, Option, none, some, List, [], ◌∷◌, ◌++◌, map,
  filter, length, arith, ==_refl,
}
use aijoes_app.Gtm.Recovery.{FailureKind, RecoveryDecision, Thrown, same_kind, classify}
use aijoes_app.Gtm.Recovery.Rules.{decide-kind}
use aijoes_app.Gtm.Recovery.Table.{
  Operation, Failures, FailureRow, prior_attempts, counts, open_for, about_subject, row_of,
  decision_of, record_failure, resolve, resolve_failures,
}

abbrev pub one_if : Bool → ℕ
one_if true = 1
one_if false = 0

pub length-filter_append :
    {A : Type 0} (p : A → Bool) (xs : List A) (a : A)
    → length (filter p (xs ++ a ∷ [])) ≡ length (filter p xs) + one_if (p a)
length-filter_append p [] a = ground arith
length-filter_append p (x ∷ xs) a = ground (arith, length-filter_append p xs a)

about_subject_self : (s : Option ℕ) → about_subject s s ≡ true
about_subject_self none = refl
about_subject_self (some k) = ==_refl k

open_for-row_of :
    (o : Operation) (error : Thrown) (d : RecoveryDecision) (fresh now : ℕ)
    → open_for o (row_of o error d fresh now) ≡ true
open_for-row_of o error d fresh now = simp (==_refl, about_subject_self)

-- A failure counts one more for its own kind and leaves the counts of the other kinds.
pub prior_attempts-record_failure :
    (o : Operation) (k : FailureKind) (error : Thrown) (fresh now : ℕ) (db : Failures)
    → prior_attempts o k (record_failure o error fresh now db).1
      ≡ prior_attempts o k db + one_if (same_kind (classify error) k)
unfolding prior_attempts record_failure
prior_attempts-record_failure o k error fresh now db =
    length-filter_append (counts o k) db _
    ∙ ap (λ b. length (filter (counts o k) db) + one_if b) own
  where
    own :
        counts o k (row_of o error (decision_of o error db) fresh now)
        ≡ same_kind (classify error) k
    own = rw (open_for-row_of o error (decision_of o error db) fresh now, decide-kind) refl

resolve-counts :
    (o : Operation) (k : FailureKind) (f : FailureRow) → counts o k (resolve o f) ≡ false
resolve-counts o k f = ground arith

filter-resolve :
    (o : Operation) (k : FailureKind) (db : Failures)
    → filter (counts o k) (map (resolve o) db) ≡ []
filter-resolve o k [] = refl
filter-resolve o k (f ∷ db) = rw (resolve-counts o k f) (filter-resolve o k db)

-- After `resolveFailures` the next failure is counted as the first.
pub prior_attempts-resolve_failures :
    (o : Operation) (k : FailureKind) (db : Failures)
    → prior_attempts o k (resolve_failures o db) ≡ 0
unfolding prior_attempts resolve_failures
prior_attempts-resolve_failures o k db = ap length (filter-resolve o k db)
