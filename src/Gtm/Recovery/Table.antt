-- ===== src/Gtm/Recovery/Table.antt =====
-- src/lib/gtm/recovery.ts: the table of failures, and `withRecovery` on it. The rows are in the
-- order of insertion, with the tenant of each; audit events are left out.
use aijoes_app.Prelude.{
  ℕ, zero, suc, ◌+◌, min, Bool, true, false, not, ◌&&◌, ◌||◌, Option, none, some, get_or, List, [],
  ◌∷◌, ◌++◌, map, filter, any, length, leb, ◌==◌, if◌then◌else◌, sort_by,
}
use aijoes_app.Gtm.Recovery.{
  FailureKind, RecoveryAction, RecoveryDecision, Thrown, same_kind, classify, decide, rule_for,
  is_retry,
}

pub record FailureRow : Type 0 where
  pub id : ℕ
  pub tenant_id : ℕ
  pub component : ℕ
  pub operation : ℕ
  pub subject_id : Option ℕ
  pub kind : FailureKind
  pub message : List ℕ
  pub attempt : ℕ
  pub action : RecoveryAction
  pub resolved : Bool
  pub created_at : ℕ

abbrev pub Failures : Type 0
Failures = List FailureRow

-- What an operation is known by: `@tenantId` and the `input` of the source.
pub record Operation : Type 0 where
  pub tenant_id : ℕ
  pub component : ℕ
  pub operation : ℕ
  pub subject_id : Option ℕ

-- `@subjectId IS NULL OR subject_id = @subjectId`
abbrev pub about_subject : Option ℕ → Option ℕ → Bool
about_subject none s = true
about_subject (some k) none = false
about_subject (some k) (some s) = s == k

-- The part of the condition that `priorAttempts` and `resolveFailures` share.
abbrev pub open_for : Operation → FailureRow → Bool
open_for o f =
    f.tenant_id == o.tenant_id
    && f.component == o.component
    && f.operation == o.operation
    && not f.resolved
    && about_subject o.subject_id f.subject_id

abbrev pub counts : Operation → FailureKind → FailureRow → Bool
counts o k f = open_for o f && same_kind f.kind k

unfoldable pub prior_attempts : Operation → FailureKind → Failures → ℕ
prior_attempts o k db = length (filter (counts o k) db)

abbrev pub take {ℓ} : {A : Type ℓ} → ℕ → List A → List A
take zero xs = []
take (suc n) [] = []
take (suc n) (x ∷ xs) = x ∷ take n xs

abbrev pub row_of : Operation → Thrown → RecoveryDecision → ℕ → ℕ → FailureRow
row_of o error d fresh now = record {
  id = fresh;
  tenant_id = o.tenant_id;
  component = o.component;
  operation = o.operation;
  subject_id = o.subject_id;
  kind = d.kind;
  message = take 500 error.message;
  attempt = d.attempt;
  action = d.action;
  resolved = false;
  created_at = now;
}

abbrev pub decision_of : Operation → Thrown → Failures → RecoveryDecision
decision_of o error db = decide (classify error) (suc (prior_attempts o (classify error) db))

unfoldable pub record_failure : Operation → Thrown → ℕ → ℕ → Failures → RecoveryDecision × Failures
record_failure o error fresh now db =
    let d = decision_of o error db in (d, db ++ row_of o error d fresh now ∷ [])

abbrev pub resolve : Operation → FailureRow → FailureRow
resolve o f = if open_for o f then record f { resolved = true } else f

unfoldable pub resolve_failures : Operation → Failures → Failures
resolve_failures o db = map (resolve o) db

-- What a call of the operation comes to.
pub data Outcome (A : Type 0) : Type 0 where
  returned : A → Outcome A
  threw : Thrown → Outcome A

abbrev pub retries : RecoveryDecision → Bool
retries d = is_retry d.action && not d.exhausted

module _ {A : Type 0} (o : Operation) (fn : ℕ → Outcome A) (fresh now : ℕ → ℕ) where
  abbrev pub Recovered : Type 0
  Recovered = Option A × List RecoveryDecision × Failures

  -- The call number `n` of the operation came to an outcome: what is decided about it, and what is
  -- done next, where `again` is the rest of the loop.
  abbrev pub round :
      (List RecoveryDecision → Failures → Option Recovered)
      → ℕ
      → List RecoveryDecision
      → Failures
      → Outcome A
      → Option Recovered
  round again n decisions db (returned value) = some (some value, decisions, resolve_failures o db)
  round again n decisions db (threw error) =
      let (d, db') = record_failure o error (fresh n) (now n) db in
      let rest = again (decisions ++ d ∷ []) db' in
      if retries d then rest else some (none, decisions ++ d ∷ [], db')

  -- `for (;;)`, from the call number `n` on. The clock and the supply of ids give their values by
  -- the number of the call; `none` says that the fuel has run out.
  unfoldable pub rounds : ℕ → ℕ → List RecoveryDecision → Failures → Option Recovered
  rounds zero n decisions db = none
  rounds (suc fuel) n decisions db = round (rounds fuel (suc n)) n decisions db (fn n)

  unfoldable pub with_recovery : ℕ → Failures → Option Recovered
  with_recovery fuel db = rounds fuel 0 [] db

abbrev pub newest_first : FailureRow → FailureRow → Bool
newest_first a b = leb b.created_at a.created_at

abbrev pub reverse : Failures → Failures
reverse [] = []
reverse (f ∷ fs) = reverse fs ++ f ∷ []

abbrev pub listed : ℕ → Bool → FailureRow → Bool
listed tenant unresolved_only f = f.tenant_id == tenant && (not unresolved_only || not f.resolved)

-- `ORDER BY created_at DESC, rowid DESC LIMIT`
unfoldable pub list_failures : ℕ → Option Bool → Option ℕ → Failures → Failures
list_failures tenant unresolved_only limit db =
    take (min (get_or limit 100) 500)
      (sort_by newest_first (reverse (filter (listed tenant (get_or unresolved_only true)) db)))

pub record KindCount : Type 0 where
  pub kind : FailureKind
  pub count : ℕ
  pub action : RecoveryAction

-- `byKind.set(f.kind, (byKind.get(f.kind) ?? 0) + 1)`: a Map keeps the order of its first entries.
abbrev pub bump : FailureKind → List KindCount → List KindCount
bump k [] = record { kind = k; count = 1; action = (rule_for k).action } ∷ []
bump k (c ∷ cs) =
    if same_kind c.kind k then record c { count = c.count + 1 } ∷ cs else c ∷ bump k cs

abbrev pub tally : Failures → List KindCount → List KindCount
tally [] cs = cs
tally (f ∷ fs) cs = tally fs (bump f.kind cs)

pub record NeedsHuman : Type 0 where
  pub component : ℕ
  pub operation : ℕ
  pub kind : FailureKind
  pub message : List ℕ

abbrev pub for_human : FailureRow → Bool
for_human f = elim f.action [
  | RecoveryAction.escalate ↦ true
  | RecoveryAction.halt ↦ true
  | RecoveryAction.refresh_credential ↦ true
  | _ ↦ false
]

abbrev pub human_of : FailureRow → NeedsHuman
human_of f = record {
  component = f.component;
  operation = f.operation;
  kind = f.kind;
  message = f.message;
}

abbrev pub stops : FailureRow → Bool
stops f = not (rule_for f.kind).continues

pub record HealthSummary : Type 0 where
  pub unresolved : ℕ
  pub by_kind : List KindCount
  pub needs_human : List NeedsHuman
  pub operational : Bool

abbrev pub most_first : KindCount → KindCount → Bool
most_first a b = leb b.count a.count

unfoldable pub health : ℕ → Failures → HealthSummary
health tenant db =
    let failures = list_failures tenant (some true) (some 500) db in
    record {
      unresolved = length failures;
      by_kind = sort_by most_first (tally failures []);
      needs_human = take 20 (map human_of (filter for_human failures));
      operational = not (any stops failures);
    }
