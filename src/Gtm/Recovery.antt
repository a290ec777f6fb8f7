-- ===== src/Gtm/Recovery.antt =====
-- src/lib/gtm/recovery.ts: what the engine does about a failure. A text is the list of its codes,
-- of which the tests of `classify` are about the ASCII ones; a component, an operation, a subject
-- and a tenant are the numbers that stand for their texts. `rationale` is left out: no code reads
-- it.
pub mod Table
pub mod Rules
pub mod Counts
pub mod Bounded
pub mod Health
use Prim.Native.String.{String}
use aijoes_app.Prelude.{
  ℕ, zero, suc, ◌+◌, ◌-◌, min, Bool, true, false, not, ◌&&◌, ◌||◌, Option, none, some, get_or, List,
  [], ◌∷◌, ◌++◌, codes, includes, to_lower, map, filter, find?, any, length, ltb, leb, ◌==◌,
  if◌then◌else◌, sort_by,
}

pub data FailureKind : Type 0 where
  rate_limited auth_expired source_unavailable egress_blocked : FailureKind
  not_found parse_failed empty_result timeout : FailureKind
  quota_exhausted permission_denied data_conflict unknown : FailureKind

pub data RecoveryAction : Type 0 where
  retry_with_backoff switch_source degrade_and_continue skip_record : RecoveryAction
  reduce_batch_size refresh_credential escalate halt : RecoveryAction

abbrev pub kind_number : FailureKind → ℕ
kind_number rate_limited = 0
kind_number auth_expired = 1
kind_number source_unavailable = 2
kind_number egress_blocked = 3
kind_number not_found = 4
kind_number parse_failed = 5
kind_number empty_result = 6
kind_number timeout = 7
kind_number quota_exhausted = 8
kind_number permission_denied = 9
kind_number data_conflict = 10
kind_number unknown = 11

abbrev pub same_kind : FailureKind → FailureKind → Bool
same_kind a b = kind_number a == kind_number b

pub record RecoveryRule : Type 0 where
  pub kind : FailureKind
  pub action : RecoveryAction
  pub max_attempts : ℕ
  pub continues : Bool

abbrev rule : FailureKind → RecoveryAction → ℕ → Bool → RecoveryRule
rule k a m c = record { kind = k; action = a; max_attempts = m; continues = c }

abbrev pub unknown_rule : RecoveryRule
unknown_rule = rule unknown escalate 1 false

abbrev pub recovery_rules : List RecoveryRule
recovery_rules =
    rule rate_limited retry_with_backoff 5 true
    ∷ rule timeout retry_with_backoff 3 true
    ∷ rule quota_exhausted switch_source 1 true
    ∷ rule source_unavailable switch_source 2 true
    ∷ rule egress_blocked degrade_and_continue 1 true
    ∷ rule not_found skip_record 1 true
    ∷ rule parse_failed skip_record 2 true
    ∷ rule empty_result degrade_and_continue 1 true
    ∷ rule auth_expired refresh_credential 2 true
    ∷ rule permission_denied escalate 1 true
    ∷ rule data_conflict escalate 1 true
    ∷ unknown_rule
    ∷ []

abbrev pub backoff_ms : List ℕ
backoff_ms = 2_000 ∷ 8_000 ∷ 30_000 ∷ 120_000 ∷ 600_000 ∷ []

pub record RecoveryDecision : Type 0 where
  pub kind : FailureKind
  pub action : RecoveryAction
  pub attempt : ℕ
  pub wait_ms : ℕ
  pub continues : Bool
  pub exhausted : Bool

-- A thrown error: its message, and its `status` where that is a number.
pub record Thrown : Type 0 where
  pub message : List ℕ
  pub status : Option ℕ

abbrev pub is_status : Option ℕ → ℕ → Bool
is_status none n = false
is_status (some m) n = m == n

abbrev pub is_server_error : Option ℕ → Bool
is_server_error none = false
is_server_error (some m) = leb 500 m

unfoldable pub classify : Thrown → FailureKind
classify error =
    let message = map to_lower error.message in
    let says : String → Bool = λ p. includes (codes p) message in
    let status = is_status error.status in
    if status 429 || says "rate limit" || says "too many requests"
    then rate_limited
    else if status 401 || says "token expired" || says "invalid_grant"
    then auth_expired
    else if status 403 && says "egress"
    then egress_blocked
    else if status 403 || says "permission denied" || says "forbidden"
    then permission_denied
    else if status 404 || says "not found"
    then not_found
    else if says "egress_blocked" || says "enotfound" || says "econnrefused" || says "proxy"
    then egress_blocked
    else if says "timeout" || says "etimedout" || says "aborted"
    then timeout
    else if says "quota"
    then quota_exhausted
    else if says "unexpected token" || says "json" || says "parse"
    then parse_failed
    else if is_server_error error.status
    then source_unavailable
    else if says "unavailable" || says "service down"
    then source_unavailable
    else if says "conflict"
    then data_conflict
    else unknown

abbrev pub is_rule_of : FailureKind → RecoveryRule → Bool
is_rule_of k r = same_kind r.kind k

unfoldable pub rule_for : FailureKind → RecoveryRule
rule_for k = get_or (find? (is_rule_of k) recovery_rules) unknown_rule

abbrev pub at_index : List ℕ → ℕ → Option ℕ
at_index [] i = none
at_index (x ∷ xs) zero = some x
at_index (x ∷ xs) (suc i) = at_index xs i

-- `BACKOFF_MS[Math.min(attempt - 1, BACKOFF_MS.length - 1)] ?? 600_000`, where attempts count from
-- one: an attempt below that is outside the list.
abbrev pub backoff : ℕ → ℕ
backoff zero = 600_000
backoff (suc n) = get_or (at_index backoff_ms (min n (length backoff_ms - 1))) 600_000

abbrev pub is_retry : RecoveryAction → Bool
is_retry retry_with_backoff = true
is_retry _ = false

abbrev pub decide_by : RecoveryRule → FailureKind → ℕ → RecoveryDecision
decide_by r k attempt =
    if ltb r.max_attempts attempt
    then record {
      kind = k;
      action = escalate;
      attempt = attempt;
      wait_ms = 0;
      continues = r.continues;
      exhausted = true;
    }
    else record {
      kind = k;
      action = r.action;
      attempt = attempt;
      wait_ms = if is_retry r.action then backoff attempt else 0;
      continues = r.continues;
      exhausted = false;
    }

unfoldable pub decide : FailureKind → ℕ → RecoveryDecision
decide k attempt = decide_by (rule_for k) k attempt
