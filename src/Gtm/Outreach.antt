-- ===== src/Gtm/Outreach.antt =====
-- src/lib/gtm/outreach.ts, with the tables of suppressions and of messages of src/lib/gtm/store.ts:
-- when a message is composed, approved and sent. The texts that `firstTouch`, `followUp` and
-- `subjectFor` assemble and the regular expressions of `lintMessage` are parameters; what is stated
-- holds for every choice of them. An address or a domain is compared by the codes of its
-- lower case, for the letters of ASCII. The contacts of an account are in the order in which `listContacts` gives them.
pub mod Send
pub mod Permission
pub mod Campaign
pub mod Resend
use Prim.Native.String.{String}
use aijoes_app.Prelude.{
  ℕ, suc, ◌+◌, min, Bool, true, false, not, ◌&&◌, ◌||◌, Option, none, some, get_or, is_some, List,
  [], ◌∷◌, ◌++◌, map, filter, find?, any, head?, length, ltb, leb, ◌==◌, if◌then◌else◌, sort_by,
  same_text, same_codes, lower,
}
use aijoes_app.Gtm.Recovery.Table.{take}
use aijoes_app.Gtm.Governance.{
  CommercialPolicy, Quality, strong, MspProfile, ServiceLine, first_service,
}

pub data HypothesisQuality : Type 0 where
  strong_quality workable_quality weak_quality rejected_quality : HypothesisQuality

pub record Account : Type 0 where
  pub id : ℕ
  pub synthetic : Bool
  pub suppressed : Bool
  pub domain : Option String

pub record Hypothesis : Type 0 where
  pub id : ℕ
  pub account_id : ℕ
  pub quality : HypothesisQuality
  pub evidence : List String
  pub service_ids : List String

pub record Contact : Type 0 where
  pub id : ℕ
  pub account_id : ℕ
  pub email : Option String
  pub consent_basis : Option String
  pub suppressed : Bool

pub data OutreachStatus : Type 0 where
  draft awaiting_approval approved sent blocked suppressed_status : OutreachStatus

abbrev pub status_number : OutreachStatus → ℕ
status_number draft = 0
status_number awaiting_approval = 1
status_number approved = 2
status_number sent = 3
status_number blocked = 4
status_number suppressed_status = 5

-- A message by email; its channel is always that one.
pub record Message : Type 0 where
  pub id : ℕ
  pub account_id : ℕ
  pub hypothesis_id : ℕ
  pub contact_id : Option ℕ
  pub step : ℕ
  pub subject : String
  pub body : String
  pub status : OutreachStatus
  pub reason_for_contact : String
  pub evidence : List String
  pub approved_by : Option ℕ
  pub sent_at : Option ℕ
  pub blocked_reason : Option String
  pub created_at : ℕ

-- A row of the table: its tenant and its message.
pub record Row : Type 0 where
  pub tenant_id : ℕ
  pub message : Message

abbrev pub Outbox : Type 0
Outbox = List Row

pub data MatchType : Type 0 where
  domain email name : MatchType

abbrev pub match_number : MatchType → ℕ
match_number domain = 0
match_number email = 1
match_number name = 2

pub record Suppression : Type 0 where
  pub tenant_id : ℕ
  pub match_type : MatchType
  pub match_value : List ℕ
  pub reason : String

-- A text counts as true unless it is empty.
abbrev pub truthy : Option String → Bool
truthy none = false
truthy (some t) = not (same_text t "")

abbrev pub matches : ℕ → MatchType → List ℕ → Suppression → Bool
matches tenant k value s =
    s.tenant_id == tenant
    && match_number s.match_type == match_number k
    && same_codes s.match_value value

abbrev pub reason_of : Option Suppression → Option String
reason_of none = none
reason_of (some s) = some s.reason

unfoldable pub is_suppressed : ℕ → List Suppression → String → MatchType → Option String
is_suppressed tenant suppressions value k =
    reason_of (find? (matches tenant k (lower value)) suppressions)

abbrev pub rewrite_reason : ℕ → MatchType → List ℕ → String → Suppression → Suppression
rewrite_reason tenant k value reason s =
    if matches tenant k value s then record s { reason = reason } else s

unfoldable pub add_suppression :
    ℕ → MatchType → String → String → List Suppression → List Suppression
add_suppression tenant k value reason suppressions =
    let stored = lower value in
    if any (matches tenant k stored) suppressions
    then map (rewrite_reason tenant k stored reason) suppressions
    else suppressions
      ++ record { tenant_id = tenant; match_type = k; match_value = stored; reason = reason } ∷ []

abbrev pub same_contact : Option ℕ → Option ℕ → Bool
same_contact none none = true
same_contact (some a) (some b) = a == b
same_contact _ _ = false

-- The unique key (tenant_id, hypothesis_id, contact_key, step).
abbrev pub at_key : ℕ → Message → Row → Bool
at_key tenant m r =
    r.tenant_id == tenant
    && r.message.hypothesis_id == m.hypothesis_id
    && same_contact r.message.contact_id m.contact_id
    && r.message.step == m.step

-- `ON CONFLICT ... DO UPDATE SET`
abbrev pub overwrite : ℕ → Message → Row → Row
overwrite tenant m r =
    if at_key tenant m r
    then record r {
      message = record r.message {
        subject = m.subject;
        body = m.body;
        status = m.status;
        approved_by = m.approved_by;
        sent_at = m.sent_at;
        blocked_reason = m.blocked_reason;
      };
    }
    else r

unfoldable pub stored_outbox : ℕ → Message → Outbox → Outbox
stored_outbox tenant m db =
    if any (at_key tenant m) db
    then map (overwrite tenant m) db
    else db ++ record { tenant_id = tenant; message = m } ∷ []

abbrev pub as_stored : Message → Option Row → Message
as_stored m none = m
as_stored m (some r) = record m { id = r.message.id; created_at = r.message.created_at }

unfoldable pub save_outreach : ℕ → Message → Outbox → Message × Outbox
save_outreach tenant m db =
    let db' = stored_outbox tenant m db in (as_stored m (find? (at_key tenant m) db'), db')

-- Why nothing is composed.
pub data Refusal : Type 0 where
  synthetic_account suppressed_account suppressed_domain weak_hypothesis : Refusal
  policy_quality_floor no_observation no_contact suppressed_contact : Refusal
  no_address suppressed_email no_lawful_basis nothing_to_offer failed_lint : Refusal

pub data ComposeResult : Type 0 where
  refused : Refusal → ComposeResult
  composed : Message → ComposeResult

pub record Writing : Type 0 where
  pub subject_for : Hypothesis → Account → String
  pub body_for : String → Hypothesis → Account → Contact → ℕ → String
  pub clean : String → Bool

abbrev pub is_weak : HypothesisQuality → Bool
is_weak rejected_quality = true
is_weak weak_quality = true
is_weak _ = false

abbrev pub is_strong : HypothesisQuality → Bool
is_strong strong_quality = true
is_strong _ = false

abbrev pub wants_strong : Quality → Bool
wants_strong strong = true
wants_strong _ = false

abbrev pub domain_suppressed : ℕ → List Suppression → Option String → Bool
domain_suppressed tenant suppressions none = false
domain_suppressed tenant suppressions (some d) =
    not (same_text d "") && truthy (is_suppressed tenant suppressions d domain)

-- The refusal for the account or the hypothesis, in the order of the tests.
abbrev pub refuse_account :
    ℕ → List Suppression → Account → Hypothesis → CommercialPolicy → Option Refusal
refuse_account tenant suppressions a h policy =
    if a.synthetic
    then some synthetic_account
    else if a.suppressed
    then some suppressed_account
    else if domain_suppressed tenant suppressions a.domain
    then some suppressed_domain
    else if is_weak h.quality
    then some weak_hypothesis
    else if wants_strong policy.min_quality_for_auto_outreach && not (is_strong h.quality)
    then some policy_quality_floor
    else none

abbrev pub refuse_address : ℕ → List Suppression → Contact → Option Refusal
refuse_address tenant suppressions c =
    if c.suppressed
    then some suppressed_contact
    else if not (truthy c.email)
    then some no_address
    else if truthy (is_suppressed tenant suppressions (get_or c.email "") email)
    then some suppressed_email
    else if not (truthy c.consent_basis)
    then some no_lawful_basis
    else none

abbrev pub message_of : Writing → String → Hypothesis → Account → Contact → ℕ → ℕ → ℕ → Message
message_of w observation h a c step fresh now = record {
  id = fresh;
  account_id = a.id;
  hypothesis_id = h.id;
  contact_id = some c.id;
  step = step;
  subject = w.subject_for h a;
  body = w.body_for observation h a c step;
  status = draft;
  reason_for_contact = observation;
  evidence = h.evidence;
  approved_by = none;
  sent_at = none;
  blocked_reason = none;
  created_at = now;
}

module _ (w : Writing) (profile : MspProfile) (policy : CommercialPolicy) (tenant : ℕ)
    (suppressions : List Suppression) where
  abbrev pub save_composed : Message → Outbox → ComposeResult × Outbox
  save_composed m db = let (stored, db') = save_outreach tenant m db in (composed stored, db')

  abbrev pub write_to :
      String → Account → Hypothesis → Contact → ℕ → ℕ → ℕ → Outbox → ComposeResult × Outbox
  write_to observation a h c step fresh now db =
      let m = message_of w observation h a c step fresh now in
      if not (is_some (first_service profile h.service_ids))
      then (refused nothing_to_offer, db)
      else if not (w.clean m.body)
      then (refused failed_lint, db)
      else save_composed m db

  abbrev pub compose_address :
      Option Refusal
      → String
      → Account
      → Hypothesis
      → Contact
      → ℕ
      → ℕ
      → ℕ
      → Outbox
      → ComposeResult × Outbox
  compose_address (some r) observation a h c step fresh now db = (refused r, db)
  compose_address none observation a h c step fresh now db =
      write_to observation a h c step fresh now db

  abbrev pub compose_contact :
      String → Account → Hypothesis → Option Contact → ℕ → ℕ → ℕ → Outbox → ComposeResult × Outbox
  compose_contact observation a h none step fresh now db = (refused no_contact, db)
  compose_contact observation a h (some c) step fresh now db =
      compose_address (refuse_address tenant suppressions c) observation a h c step fresh now db

  abbrev pub compose_observation :
      Option String
      → Account
      → Hypothesis
      → Option Contact
      → ℕ
      → ℕ
      → ℕ
      → Outbox
      → ComposeResult × Outbox
  compose_observation none a h c step fresh now db = (refused no_observation, db)
  compose_observation (some observation) a h c step fresh now db =
      compose_contact observation a h c step fresh now db

  abbrev pub compose_account :
      Option Refusal
      → Account
      → Hypothesis
      → Option Contact
      → ℕ
      → ℕ
      → ℕ
      → Outbox
      → ComposeResult × Outbox
  compose_account (some r) a h c step fresh now db = (refused r, db)
  compose_account none a h c step fresh now db =
      compose_observation (head? h.evidence) a h c step fresh now db

  unfoldable pub compose :
      Account → Hypothesis → Option Contact → ℕ → ℕ → ℕ → Outbox → ComposeResult × Outbox
  compose a h c step fresh now db =
      compose_account (refuse_account tenant suppressions a h policy) a h c step fresh now db
