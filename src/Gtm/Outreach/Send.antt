-- ===== src/Gtm/Outreach/Send.antt =====
-- src/lib/gtm/outreach.ts: the composing of a batch, the approval and the sending of a message. A day
-- is the number that `toDateString` gives an instant; the texts that explain a result are left out,
-- and audit events with them.
use Prim.Native.String.{String}
use aijoes_app.Prelude.{
  ℕ, ◌+◌, min, Bool, true, false, not, ◌&&◌, Option, none, some, List, [], ◌∷◌, ◌++◌, filter, find?,
  head?, length, leb, ◌==◌, if◌then◌else◌, sort_by,
}
use aijoes_app.Gtm.Recovery.Table.{take}
use aijoes_app.Gtm.Governance.{CommercialPolicy, MspProfile}
use aijoes_app.Gtm.Outreach.{
  Account, Hypothesis, Contact, OutreachStatus, status_number, sent, blocked, approved, Message,
  Row, Outbox, Suppression, truthy, save_outreach, Refusal, ComposeResult, refused, composed,
  Writing, compose,
}

abbrev pub refusal_number : Refusal → ℕ
refusal_number Refusal.synthetic_account = 0
refusal_number Refusal.suppressed_account = 1
refusal_number Refusal.suppressed_domain = 2
refusal_number Refusal.weak_hypothesis = 3
refusal_number Refusal.policy_quality_floor = 4
refusal_number Refusal.no_observation = 5
refusal_number Refusal.no_contact = 6
refusal_number Refusal.suppressed_contact = 7
refusal_number Refusal.no_address = 8
refusal_number Refusal.suppressed_email = 9
refusal_number Refusal.no_lawful_basis = 10
refusal_number Refusal.nothing_to_offer = 11
refusal_number Refusal.failed_lint = 12

abbrev pub has_status : ℕ → OutreachStatus → Row → Bool
has_status tenant status r =
    r.tenant_id == tenant && status_number r.message.status == status_number status

abbrev pub newest : Row → Row → Bool
newest a b = leb b.message.created_at a.message.created_at

-- `listOutreach(db, { status, limit })`
unfoldable pub list_outreach : ℕ → OutreachStatus → ℕ → Outbox → List Row
list_outreach tenant status limit db =
    take (min limit 1_000) (sort_by newest (filter (has_status tenant status) db))

abbrev pub on_day : (ℕ → ℕ) → ℕ → Option ℕ → Bool
on_day day_of now none = false
on_day day_of now (some t) = day_of t == day_of now

unfoldable pub sent_today : (ℕ → ℕ) → ℕ → ℕ → Outbox → ℕ
sent_today day_of now tenant db =
    length (filter (λ r. on_day day_of now r.message.sent_at) (list_outreach tenant sent 500 db))

-- `contacts.find((c) => c.email && !c.suppressed) ?? contacts[0] ?? null`
abbrev pub or_first : Option Contact → List Contact → Option Contact
or_first none contacts = head? contacts
or_first (some c) contacts = some c

abbrev pub contact_for : List Contact → Option Contact
contact_for contacts = or_first (find? (λ c. truthy c.email && not c.suppressed) contacts) contacts

pub record Refused : Type 0 where
  pub rule : Refusal
  pub count : ℕ

abbrev pub bump : Refusal → List Refused → List Refused
bump r [] = record { rule = r; count = 1 } ∷ []
bump r (e ∷ es) =
    if refusal_number e.rule == refusal_number r
    then record e { count = e.count + 1 } ∷ es
    else e ∷ bump r es

abbrev pub most_first : Refused → Refused → Bool
most_first a b = leb b.count a.count

-- What the loop has so far, and whether it stopped at the cap.
pub record Batch : Type 0 where
  pub messages : List Message
  pub refusals : List Refused
  pub halted : Bool
  pub outbox : Outbox

pub record CampaignResult : Type 0 where
  pub number : ℕ
  pub refused_by : List Refused
  pub messages : List Message
  pub halted : Bool

module _ (w : Writing) (profile : MspProfile) (policy : CommercialPolicy) (tenant : ℕ)
    (suppressions : List Suppression) (account_of : ℕ → Option Account) (contacts : List Contact)
    (fresh : ℕ → ℕ) (now : ℕ) where
  abbrev pub contacts_of : ℕ → List Contact
  contacts_of k = filter (λ c. c.account_id == k) contacts

  abbrev pub add_result : ComposeResult × Outbox → Batch → Batch
  add_result (refused r, db) b = record b { refusals = bump r b.refusals; outbox = db }
  add_result (composed m, db) b = record b { messages = b.messages ++ m ∷ []; outbox = db }

  -- An account that is not in the map is passed over.
  abbrev pub batch_step : Option Account → Hypothesis → Batch → Batch
  batch_step none h b = b
  batch_step (some a) h b =
      add_result
        (compose w profile policy tenant suppressions a h (contact_for (contacts_of a.id)) 1
          (fresh h.id) now b.outbox)
        b

  abbrev pub batch_of : ℕ → List Hypothesis → Batch → Batch
  batch_of cap [] b = b
  batch_of cap (h ∷ hs) b =
      let rest = batch_of cap hs (batch_step (account_of h.account_id) h b) in
      if leb cap (length b.messages) then record b { halted = true } else rest

  unfoldable pub compose_campaign : (ℕ → ℕ) → List Hypothesis → ℕ → Outbox → CampaignResult × Outbox
  compose_campaign day_of hypotheses limit db =
      let cap = min limit policy.daily_outreach_limit in
      let b =
        batch_of cap hypotheses
          (record { messages = []; refusals = []; halted = false; outbox = db }) in
      if leb policy.daily_outreach_limit (sent_today day_of now tenant db)
      then (record { number = 0; refused_by = []; messages = []; halted = true }, db)
      else (
        record {
          number = length b.messages;
          refused_by = sort_by most_first b.refusals;
          messages = b.messages;
          halted = b.halted;
        },
        b.outbox,
      )

pub data EmailProvider : Type 0 where
  sendgrid aws_ses no_provider : EmailProvider

abbrev pub is_provider : EmailProvider → Bool
is_provider no_provider = false
is_provider _ = true

abbrev pub is_approved : OutreachStatus → Bool
is_approved approved = true
is_approved _ = false

-- Whether the message counts as sent, and the table.
unfoldable pub send : EmailProvider → String → ℕ → Message → ℕ → ℕ → Outbox → Bool × Outbox
send provider detail tenant m approver now db =
    if not (is_approved m.status)
    then (false, db)
    else if not (is_provider provider)
    then (
      false,
      (save_outreach tenant (record m { status = blocked; blocked_reason = some detail }) db).1,
    )
    else (
      true,
      (save_outreach tenant
          (record m { status = sent; sent_at = some now; approved_by = some approver }) db).1,
    )

unfoldable pub approve : ℕ → Message → ℕ → Outbox → Message × Outbox
approve tenant m approver db =
    save_outreach tenant (record m { status = approved; approved_by = some approver }) db
