-- ===== src/Gtm/Tests.antt =====
-- Recovery at a source that is rate limited and then answers, and the queue of decisions at one
-- hypothesis.
use Prim.Native.String.{String}
use aijoes_app.Prelude.{
  ◌⊎◌, filter, ◌<◌, ◌&&◌, ℕ, zero, suc, ◌+◌, ◌≤◌, Bool, true, false, ◌≡◌, refl, ◌↔◌, Option, none,
  some, List, [], ◌∷◌, length, arith, inl, ◌/◌, codes, includes,
}
use aijoes_app.Gtm.Recovery.{
  FailureKind, rate_limited, auth_expired, egress_blocked, permission_denied, source_unavailable,
  unknown, timeout, Thrown, RecoveryDecision, classify, decide, rule_for, escalate,
}
use aijoes_app.Gtm.Recovery.Table.{
  Operation, Failures, FailureRow, Outcome, returned, threw, rounds, with_recovery, record_failure,
  resolve_failures, prior_attempts, health,
}
use aijoes_app.Gtm.Recovery.Bounded.{retries_left, Ends, with_recovery-Ends}
use aijoes_app.Gtm.Recovery.Health.{unresolved_of, IsUnsafe, health-operational}
use aijoes_app.Gtm.Governance.{
  Hypothesis, MspProfile, ready, default_policy, needs_escalation, pricing_outside_parameters,
  DecisionInput, escalation_for, Decisions, raise_decision_once,
}
use aijoes_app.Gtm.Outreach.{
  Account, Contact, Message, Row, Outbox, Suppression, Writing, strong_quality, draft, sent,
  approved, blocked, email, refused, suppressed_email, add_suppression, compose, message_of, at_key,
  save_outreach, stored_outbox, is_suppressed,
}
use aijoes_app.Gtm.Outreach as Outreach
use aijoes_app.Gtm.Outreach.Send.{compose_campaign, sent_today, list_outreach}
use aijoes_app.Gtm.Outreach.Permission.{Answers, compose-IsPermitted}
use aijoes_app.Gtm.Outreach.Campaign.{compose_campaign-cap, counts_as_sent, was_today}
use aijoes_app.Gtm.Outreach.Resend.{compose-drafts}
use aijoes_app.Gtm.Governance.Policy.{IsRoutine, needs_escalation-required}
use aijoes_app.Gtm.Governance.Queue.{IsSingle, Reached-IsSingle, empty, raised_once}

abbrev failing : String → Option ℕ → Thrown
failing text status = record { message = codes text; status = status }

classify_texts :
    (classify (failing "HTTP 429" (some 429)) ≡ rate_limited)
    × (classify (failing "Token expired" none) ≡ auth_expired)
    × (classify (failing "Egress denied" (some 403)) ≡ egress_blocked)
    × (classify (failing "Forbidden" none) ≡ permission_denied)
    × (classify (failing "oops" (some 503)) ≡ source_unavailable)
    × (classify (failing "oops" none) ≡ unknown)
unfolding classify includes
classify_texts = (refl, refl, refl, refl, refl, refl)

abbrev fetching : Operation
fetching = record { tenant_id = 1; component = 2; operation = 3; subject_id = some 4 }

-- Two calls are refused for their rate, the third returns 7.
abbrev busy : ℕ → Outcome ℕ
busy zero = threw (failing "Too many requests" none)
busy (suc zero) = threw (failing "rate limit" (some 429))
busy (suc (suc n)) = returned 7

abbrev clock : ℕ → ℕ
clock n = n + 100

abbrev row : ℕ → FailureKind → Bool → FailureRow
row k f r = record {
  id = k;
  tenant_id = 1;
  component = 2;
  operation = 3;
  subject_id = some 4;
  kind = f;
  message = [];
  attempt = 1;
  action = escalate;
  resolved = r;
  created_at = k;
}

abbrev failures : Failures
failures = row 1 timeout false ∷ row 2 unknown true ∷ row 3 unknown false ∷ []

with_recovery_run :
    (rows : Failures) × (with_recovery fetching busy clock clock 9 []
      ≡ some (some 7, decide rate_limited 1 ∷ decide rate_limited 2 ∷ [], rows))
unfolding with_recovery rounds record_failure resolve_failures prior_attempts decide rule_for
    classify includes
with_recovery_run = (_, refl)

with_recovery-Ends_example :
    (value : Option ℕ) × (ds : List RecoveryDecision) × (db' : Failures) × (with_recovery fetching
        busy clock clock 9 failures
      ≡ some (value, ds, db'))
    × (length ds ≤ retries_left fetching failures + 1)
    × (length db' ≡ length failures + length ds)
    × Ends fetching busy clock clock value ds db'
with_recovery-Ends_example = with_recovery-Ends fetching busy clock clock failures

health-operational_example :
    ((health 1 failures).unresolved ≡ length (unresolved_of 1 failures))
    × (((health 1 failures).operational ≡ false) ↔ ((f : FailureRow) × IsUnsafe 1 failures f))
health-operational_example = health-operational 1 failures (omega arith)

abbrev profile : MspProfile
profile = record {
  service_lines = record { id = "managed-it"; delivery_capacity = ready } ∷ [];
  rate_card = none;
}

abbrev hypothesis_6 : Hypothesis
hypothesis_6 = record {
  id = 6;
  archetype = "managed-it";
  service_ids = "managed-it" ∷ [];
  headline = "Renewal";
  what_is_happening = "A contract ends.";
  why_it_matters = "It can move.";
  evidence = 1;
  value_point = 60_000;
  next_action = "Call";
}

needs_escalation_run :
    needs_escalation hypothesis_6 profile default_policy
    ≡ record { required = true; trigger = some pricing_outside_parameters }
unfolding needs_escalation
needs_escalation_run = refl

needs_escalation-required_example :
    (((needs_escalation hypothesis_6 profile default_policy).required ≡ false)
      ↔ IsRoutine hypothesis_6 profile default_policy)
    × (((needs_escalation hypothesis_6 profile default_policy).required ≡ false)
        ↔ ((needs_escalation hypothesis_6 profile default_policy).trigger ≡ none))
needs_escalation-required_example = needs_escalation-required hypothesis_6 profile default_policy

abbrev escalation : DecisionInput
escalation = escalation_for hypothesis_6 "Acme" pricing_outside_parameters

abbrev queue : Decisions
queue = (raise_decision_once 1 escalation 10 1_000 []).1

Reached-IsSingle_example : IsSingle (raise_decision_once 1 escalation 11 2_000 queue).1
Reached-IsSingle_example =
    Reached-IsSingle (raised_once 1 escalation 11 2_000 (raised_once 1 escalation 10 1_000 empty))

abbrev writing : Writing
writing = record {
  subject_for = λ h a. "The contract";
  body_for = λ o h a c step. o;
  clean = λ body. true;
}

abbrev acme : Account
acme = record { id = 1; synthetic = false; suppressed = false; domain = some "acme.example" }

abbrev thesis : Outreach.Hypothesis
thesis = record {
  id = 6;
  account_id = 1;
  quality = strong_quality;
  evidence = "The contract ends in May." ∷ [];
  service_ids = "managed-it" ∷ [];
}

abbrev buyer : Contact
buyer = record {
  id = 3;
  account_id = 1;
  email = some "it@acme.example";
  consent_basis = some "legitimate interest";
  suppressed = false;
}

-- The message as it was sent.
abbrev sent_message : Message
sent_message =
    record (message_of writing "The contract ends in May." thesis acme buyer 1 20 1_000) {
      status = sent;
      approved_by = some 9;
      sent_at = some 2_000;
    }

abbrev outbox : Outbox
outbox = record { tenant_id = 1; message = sent_message } ∷ []

abbrev drafted : Row
drafted = record {
  tenant_id = 1;
  message = message_of writing "The contract ends in May." thesis acme buyer 1 20 1_000;
}

compose_again :
    (compose writing profile default_policy 1 [] acme thesis (some buyer) 1 21 3_000 outbox).1
    ≡ drafted ∷ []
unfolding compose save_outreach stored_outbox is_suppressed
compose_again = refl

compose-IsPermitted_example :
    Answers writing profile default_policy 1 [] acme thesis
      (some buyer)
      1
      21
      3_000
      outbox
      (compose writing profile default_policy 1 [] acme thesis (some buyer) 1 21 3_000 outbox)
compose-IsPermitted_example =
    compose-IsPermitted writing profile default_policy 1 [] acme thesis (some buyer) 1 21 3_000
      outbox

-- A suppression is found whatever the case of the address.
suppressed_address :
    (compose writing profile default_policy 1
      (add_suppression 1 email "IT@Acme.example" "asked" [])
      acme
      thesis
      (some buyer)
      1
      21
      3_000
      outbox).0
    ≡ refused suppressed_email
unfolding compose is_suppressed add_suppression
suppressed_address = refl

compose-drafts_example :
    (drafted.message.status ≡ draft)
    × (drafted.message.sent_at ≡ none)
    × (drafted.message.approved_by ≡ none)
unfolding compose save_outreach stored_outbox is_suppressed
compose-drafts_example =
    compose-drafts writing profile default_policy 1 [] acme thesis buyer 1 21 3_000 outbox drafted
      refl (inl refl) refl refl refl refl

abbrev day_of : ℕ → ℕ
day_of t = t / 86_400_000

compose_campaign-cap_example :
    let (result, db') =
      compose_campaign writing profile default_policy 1 []
        (λ k. some acme)
        (buyer ∷ [])
        (λ k. k)
        3_000
        day_of
        (thesis ∷ [])
        10
        outbox in
    (result.number ≡ length result.messages)
    × (result.number ≤ 10)
    × (result.number ≤ 25)
    × ((length (filter (λ r. counts_as_sent 1 r && was_today day_of 3_000 r) outbox) < 25)
        ⊎ (500 < length (filter (counts_as_sent 1) outbox))
        ⊎ ((result.number ≡ 0) × (db' ≡ outbox)))
compose_campaign-cap_example =
    compose_campaign-cap writing profile default_policy 1 [] (λ k. some acme) (buyer ∷ []) (λ k. k)
      3_000 day_of (thesis ∷ []) 10 outbox

-- A message that was sent today uses up a limit of one.
at_the_limit :
    (compose_campaign writing profile
      (record default_policy { daily_outreach_limit = 1 })
      1
      []
      (λ k. some acme)
      (buyer ∷ [])
      (λ k. k)
      3_000
      day_of
      (thesis ∷ [])
      10
      outbox).1
    ≡ outbox
unfolding compose_campaign sent_today list_outreach
at_the_limit = refl
