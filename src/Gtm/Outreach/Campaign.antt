-- ===== src/Gtm/Outreach/Campaign.antt =====
-- `composeCampaign` of src/lib/gtm/outreach.ts: how much a batch may write.
use aijoes_app.Prelude.{
  Bool, true, ◌&&◌, ◌∙◌, filter, insert_by, sort_by, ◌==◌, ℕ, suc, ◌≤◌, ◌<◌, ◌⊎◌, min, false, ◌≡◌,
  refl, ap, inl, inr, Option, none, some, List, [], ◌∷◌, ◌++◌, length, arith, Bool-cases, leb,
}
use aijoes_app.Gtm.Governance.{CommercialPolicy, MspProfile}
use aijoes_app.Gtm.Recovery.Health.{take_all, length-sort_by}
use aijoes_app.Gtm.Outreach.{
  OutreachStatus, sent, status_number, Row, Account, Hypothesis, Contact, Outbox, Suppression,
  refused, composed, ComposeResult, Writing,
}
use aijoes_app.Gtm.Outreach.Send.{
  Batch, add_result, batch_step, batch_of, compose_campaign, sent_today, has_status, newest, on_day,
  list_outreach,
}

-- A row of the tenant that counts as sent, and one that was sent on the day of an instant.
abbrev pub is_sent : OutreachStatus → Bool
is_sent sent = true
is_sent _ = false

abbrev pub counts_as_sent : ℕ → Row → Bool
counts_as_sent tenant r = r.tenant_id == tenant && is_sent r.message.status

abbrev pub was_today : (ℕ → ℕ) → ℕ → Row → Bool
was_today day_of now r = elim r.message.sent_at [ none ↦ false | some t ↦ day_of t == day_of now ]

length-filter-insert_by :
    {A : Type 0} (p : A → Bool) (le : A → A → Bool) (x : A) (ys : List A)
    → length (filter p (insert_by le x ys)) ≡ length (filter p (x ∷ ys))
length-filter-insert_by p le x [] = refl
length-filter-insert_by p le x (y ∷ ys) = ground (arith, length-filter-insert_by p le x ys)

length-filter-sort_by :
    {A : Type 0} (p : A → Bool) (le : A → A → Bool) (xs : List A)
    → length (filter p (sort_by le xs)) ≡ length (filter p xs)
length-filter-sort_by p le [] = refl
length-filter-sort_by p le (x ∷ xs) =
    length-filter-insert_by p le x (sort_by le xs) ∙ ground (arith, length-filter-sort_by p le xs)

length-filter-filter :
    {A : Type 0} (p q : A → Bool) (xs : List A)
    → length (filter p (filter q xs)) ≡ length (filter (λ x. q x && p x) xs)
length-filter-filter p q [] = refl
length-filter-filter p q (x ∷ xs) = ground (arith, length-filter-filter p q xs)

length-filter_same :
    {A : Type 0} (p q : A → Bool) (xs : List A)
    → ((x : A) → p x ≡ q x)
    → length (filter p xs) ≡ length (filter q xs)
length-filter_same p q [] h = refl
length-filter_same p q (x ∷ xs) h = let e = h x in ground (arith, length-filter_same p q xs h)

has_status-counts_as_sent :
    (tenant : ℕ) (r : Row) → has_status tenant sent r ≡ counts_as_sent tenant r
has_status-counts_as_sent tenant r = by_status r.message.status
  where
    by_status :
        (t : OutreachStatus)
        → (r.tenant_id == tenant && status_number t == status_number sent)
          ≡ (r.tenant_id == tenant && is_sent t)
    by_status t = ground arith

on_day-was_today :
    (day_of : ℕ → ℕ) (now : ℕ) (r : Row)
    → on_day day_of now r.message.sent_at ≡ was_today day_of now r
on_day-was_today day_of now r = by_time r.message.sent_at
  where
    by_time :
        (o : Option ℕ)
        → on_day day_of now o ≡ elim o [ none ↦ false | some t ↦ day_of t == day_of now ]
    by_time none = refl
    by_time (some t) = refl

-- While at most 500 messages have been sent, all of today's are counted.
sent_today_all :
    (day_of : ℕ → ℕ) (now tenant : ℕ) (db : Outbox)
    → length (filter (counts_as_sent tenant) db) ≤ 500
    → sent_today day_of now tenant db
      ≡ length (filter (λ r. counts_as_sent tenant r && was_today day_of now r) db)
unfolding sent_today list_outreach
sent_today_all day_of now tenant db few =
    let listed = filter (has_status tenant sent) db in
    let all_listed : length (sort_by newest listed) ≤ 500 =
      (let e = length-sort_by newest listed in
        let k =
          length-filter_same (has_status tenant sent) (counts_as_sent tenant) db
            (has_status-counts_as_sent tenant) in
        omega arith) in
    ap (λ l. length (filter (λ r. on_day day_of now r.message.sent_at) l))
      (take_all 500 _ all_listed)
    ∙ length-filter-sort_by (λ r. on_day day_of now r.message.sent_at) newest listed
    ∙ length-filter-filter (λ r. on_day day_of now r.message.sent_at) (has_status tenant sent) db
    ∙ length-filter_same _ _ db
        (λ r. ap2_and (has_status-counts_as_sent tenant r) (on_day-was_today day_of now r))
  where
    ap2_and : {a b c d : Bool} → a ≡ b → c ≡ d → (a && c) ≡ (b && d)
    ap2_and e k = rw (e, k) refl

length-append_one : {A : Type 0} (xs : List A) (x : A) → length (xs ++ x ∷ []) ≡ suc (length xs)
length-append_one [] x = refl
length-append_one (y ∷ xs) x = ap suc (length-append_one xs x)

module _ (w : Writing) (profile : MspProfile) (policy : CommercialPolicy) (tenant : ℕ)
    (suppressions : List Suppression) (account_of : ℕ → Option Account) (contacts : List Contact)
    (fresh : ℕ → ℕ) (now : ℕ) where
  abbrev step : Option Account → Hypothesis → Batch → Batch
  step = batch_step w profile policy tenant suppressions account_of contacts fresh now

  add_result_one :
      (r : ComposeResult × Outbox) (b : Batch)
      → length
          (add_result w profile policy tenant suppressions account_of contacts fresh now r
            b).messages
        ≤ suc (length b.messages)
  add_result_one (refused r, db) b = omega arith
  add_result_one (composed m, db) b = (let e = length-append_one b.messages m in omega arith)

  step_one :
      (a : Option Account) (h : Hypothesis) (b : Batch)
      → length (step a h b).messages ≤ suc (length b.messages)
  step_one none h b = omega arith
  step_one (some a) h b = add_result_one _ b

  batch_of_cap :
      (cap : ℕ) (hs : List Hypothesis) (b : Batch)
      → length b.messages ≤ cap
      → length
          (batch_of w profile policy tenant suppressions account_of contacts fresh now cap hs
            b).messages
        ≤ cap
  batch_of_cap cap [] b few = few
  batch_of_cap cap (h ∷ hs) b few = elim (Bool-cases (leb cap (length b.messages))) [
    | inl full ↦ rw full few
    | inr more ↦
        let one = step_one (account_of h.account_id) h b in
        rw more (batch_of_cap cap hs (step (account_of h.account_id) h b) (ground arith))
  ]

  -- A batch never composes more messages than it was asked for or than the policy allows a day.
  -- Where the tenant has sent at most 500 messages in all, and as many of them today as the policy
  -- allows a day, the batch composes none and writes nothing.
  pub compose_campaign-cap :
      (day_of : ℕ → ℕ) (hypotheses : List Hypothesis) (limit : ℕ) (db : Outbox)
      → let (result, db') =
          compose_campaign w profile policy tenant suppressions account_of contacts fresh now day_of
            hypotheses limit db in
        (result.number ≡ length result.messages)
        × (result.number ≤ limit)
        × (result.number ≤ policy.daily_outreach_limit)
        × ((length (filter (λ r. counts_as_sent tenant r && was_today day_of now r) db)
              < policy.daily_outreach_limit)
            ⊎ (500 < length (filter (counts_as_sent tenant) db))
            ⊎ ((result.number ≡ 0) × (db' ≡ db)))
  unfolding compose_campaign
  compose_campaign-cap day_of hypotheses limit db =
      let cap = min limit policy.daily_outreach_limit in
      let few =
        batch_of_cap cap hypotheses
          (record { messages = []; refusals = []; halted = false; outbox = db }) (omega arith) in
      elim (Bool-cases (leb policy.daily_outreach_limit (sent_today day_of now tenant db))) [
        | inl full ↦ rw full (refl, omega arith, omega arith, inr (inr (refl, refl)))
        | inr open_day ↦ rw open_day (
          refl,
          omega arith,
          omega arith,
          elim (Bool-cases (leb (length (filter (counts_as_sent tenant) db)) 500)) [
            | inl few_sent ↦
                inl (let e = sent_today_all day_of now tenant db (ground arith) in ground arith)
            | inr many ↦ inr (inl (ground arith))
          ],
        )
      ]
