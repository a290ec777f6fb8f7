-- ===== src/Gtm/Outreach/Resend.antt =====
-- `saveOutreach` of src/lib/gtm/store.ts under `compose` and `send` of src/lib/gtm/outreach.ts: what
-- becomes of a message that was already there.
use Prim.Native.String.{String}
use aijoes_app.Prelude.{
  ℕ, true, false, ◌≡◌, refl, ap, ◌∙◌, sym, inl, inr, ◌⊎◌, Option, none, some, List, any, In,
  In-of_map, In-of_append, Bool-cases, ==_refl, any-In, subst,
}
use aijoes_app.Gtm.Outreach.{
  Message, Row, Outbox, draft, sent, blocked, at_key, overwrite, stored_outbox, save_outreach,
  same_contact, Writing, Suppression, Account, Hypothesis, Contact, compose, message_of,
}
use aijoes_app.Gtm.Governance.{CommercialPolicy, MspProfile}
use aijoes_app.Gtm.Outreach.Permission.{is_composed, compose-IsPermitted}
use aijoes_app.Gtm.Outreach.Send.{EmailProvider, send, is_approved, is_provider}

-- What a row holds of the message that was saved over it.
abbrev pub Holds : Message → Row → Type 0
Holds m r =
    (r.message.status ≡ m.status)
    × (r.message.sent_at ≡ m.sent_at)
    × (r.message.approved_by ≡ m.approved_by)

overwrite-Holds :
    (tenant : ℕ) (m : Message) (r : Row) → at_key tenant m r ≡ true → Holds m (overwrite tenant m r)
overwrite-Holds tenant m r e = rw e (refl, refl, refl)

overwrite-at_key :
    (tenant : ℕ) (m : Message) (r : Row)
    → at_key tenant m (overwrite tenant m r) ≡ at_key tenant m r
overwrite-at_key tenant m r = elim (Bool-cases (at_key tenant m r)) [
  | inl e ↦ rw e e
  | inr e ↦ rw e e
]

new-Holds :
    (tenant : ℕ) (m : Message) (r : Row)
    → r ≡ record { tenant_id = tenant; message = m }
    → Holds m r
new-Holds tenant m r e =
    (ap (λ x. x.message.status) e, ap (λ x. x.message.sent_at) e, ap (λ x. x.message.approved_by) e)

-- Saving a message writes its status and its times over every row of its hypothesis, contact and
-- step, whatever was there.
pub save_outreach-overwrites :
    (tenant : ℕ) (m : Message) (db : Outbox) (r : Row)
    → In r (save_outreach tenant m db).1
    → at_key tenant m r ≡ true
    → Holds m r
unfolding save_outreach stored_outbox
save_outreach-overwrites tenant m db r = elim (Bool-cases (any (at_key tenant m) db)) [
  | inl old ↦ rw old (λ listed e.
      let (x, _, is) = In-of_map (overwrite tenant m) r db listed in
      let own : at_key tenant m x ≡ true =
        sym (overwrite-at_key tenant m x) ∙ ap (at_key tenant m) (sym is) ∙ e in
      let (a, b, c) = overwrite-Holds tenant m x own in
      (
        ap (λ y. y.message.status) is ∙ a,
        ap (λ y. y.message.sent_at) is ∙ b,
        ap (λ y. y.message.approved_by) is ∙ c,
      ))
  | inr new ↦ rw new (λ listed e. elim (In-of_append r db _ listed) [
    | inl there ↦ absurd (true_ne_false (sym (any-In (at_key tenant m) r db there e) ∙ new))
    | inr (inl is) ↦ new-Holds tenant m r is
    | inr (inr none_left) ↦ absurd none_left
  ])
]
  where
    true_ne_false : true ≡ false → ⊥
    true_ne_false q = cc

same_contact_self : (c : Option ℕ) → same_contact c c ≡ true
same_contact_self none = refl
same_contact_self (some k) = ==_refl k

at_key_of :
    (tenant : ℕ) (m : Message) (r : Row)
    → r.tenant_id ≡ tenant
    → r.message.hypothesis_id ≡ m.hypothesis_id
    → r.message.contact_id ≡ m.contact_id
    → r.message.step ≡ m.step
    → at_key tenant m r ≡ true
at_key_of tenant m r t h c s = simp (t, h, c, s, ==_refl, same_contact_self)

-- Composing again a message that is there already makes it a draft again that nobody approved and
-- that was never sent, even if it was approved or sent before.
pub compose-drafts :
    (w : Writing) (profile : MspProfile) (policy : CommercialPolicy) (tenant : ℕ)
    (suppressions : List Suppression) (a : Account) (h : Hypothesis) (k : Contact)
    (step fresh now : ℕ) (db : Outbox) (r : Row)
    → is_composed (compose w profile policy tenant suppressions a h (some k) step fresh now db).0
      ≡ true
    → In r (compose w profile policy tenant suppressions a h (some k) step fresh now db).1
    → r.tenant_id ≡ tenant
    → r.message.hypothesis_id ≡ h.id
    → r.message.contact_id ≡ some k.id
    → r.message.step ≡ step
    → (r.message.status ≡ draft) × (r.message.sent_at ≡ none) × (r.message.approved_by ≡ none)
compose-drafts w profile policy tenant suppressions a h k step fresh now db r done listed t i c s =
    elim (compose-IsPermitted w profile policy tenant suppressions a h (some k) step fresh now db) [
      | inl (not_done, _, _) ↦ absurd (true_ne_false (sym done ∙ not_done))
      | inr (_, (o, k', (_, _, same, _, _, _), _, is)) ↦
          let m = message_of w o h a k' step fresh now in
          save_outreach-overwrites tenant m db r (subst (In r) is listed)
            (at_key_of tenant m r t i (c ∙ same_id k' same) s)
    ]
  where
    true_ne_false : true ≡ false → ⊥
    true_ne_false q = cc

    same_id : (k' : Contact) → some k ≡ some k' → some k.id ≡ some k'.id
    same_id k' q = cc

-- A message is taken for sent exactly if it was approved and a provider is set, and every row of its
-- hypothesis, contact and step then says so, with the time and the approver. Without a provider an
-- approved message is blocked, and one that is not approved changes nothing.
pub send-approved :
    (provider : EmailProvider) (detail : String) (tenant : ℕ) (m : Message) (approver now : ℕ)
    (db : Outbox)
    → let (done, db') = send provider detail tenant m approver now db in
      ((is_approved m.status ≡ false) × (done ≡ false) × (db' ≡ db))
      ⊎ ((is_approved m.status ≡ true)
          × (is_provider provider ≡ false)
          × (done ≡ false)
          × ((r : Row) → In r db' → at_key tenant m r ≡ true → r.message.status ≡ blocked))
      ⊎ ((is_approved m.status ≡ true)
          × (is_provider provider ≡ true)
          × (done ≡ true)
          × ((r : Row)
              → In r db'
              → at_key tenant m r ≡ true
              → (r.message.status ≡ sent)
                × (r.message.sent_at ≡ some now)
                × (r.message.approved_by ≡ some approver)))
unfolding send
send-approved provider detail tenant m approver now db = elim (Bool-cases (is_approved m.status)) [
  | inr e ↦ rw e (inl (refl, refl, refl))
  | inl e ↦ elim (Bool-cases (is_provider provider)) [
    | inr f ↦
        rw (e, f)
          (inr (
            inl (
              refl,
              refl,
              refl,
              λ r listed key.
                  (save_outreach-overwrites tenant
                    (record m { status = blocked; blocked_reason = some detail }) db r listed
                    key).0,
            )))
    | inl f ↦
        rw (e, f)
          (inr (
            inr (
              refl,
              refl,
              refl,
              λ r listed key.
                  save_outreach-overwrites tenant
                    (record m { status = sent; sent_at = some now; approved_by = some approver }) db
                    r listed key,
            )))
  ]
]
