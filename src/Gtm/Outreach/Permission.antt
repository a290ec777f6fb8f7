-- ===== src/Gtm/Outreach/Permission.antt =====
-- `compose` of src/lib/gtm/outreach.ts: to whom a message may be written.
use Prim.Native.String.{String}
use aijoes_app.Prelude.{
  ℕ, Bool, true, false, ◌≡◌, refl, ap, ◌∙◌, sym, ◌⊎◌, inl, inr, ◌↔◌, Option, none, some, get_or,
  is_some, List, head?, arith, Bool-cases, Option-cases, subst,
}
use aijoes_app.Gtm.Governance.{CommercialPolicy, MspProfile, first_service}
use aijoes_app.Gtm.Outreach.{
  Account, Hypothesis, Contact, Outbox, Row, Message, draft, as_stored, Suppression, email, truthy,
  is_suppressed, refused, composed, Refusal, ComposeResult, Writing, is_weak, is_strong,
  wants_strong, domain_suppressed, refuse_account, refuse_address, message_of, compose,
  save_outreach, compose_account, compose_observation, compose_contact, compose_address, write_to,
  save_composed,
}

abbrev pub is_composed : ComposeResult → Bool
is_composed (composed m) = true
is_composed (refused r) = false

some_ne_none : {A : Type 0} (x : A) → some x ≡ none → ⊥
some_ne_none x q = cc

some_inj : {A : Type 0} (x y : A) → some x ≡ some y → x ≡ y
some_inj x y q = cc

module _ (w : Writing) (profile : MspProfile) (policy : CommercialPolicy) (tenant : ℕ)
    (suppressions : List Suppression) where
  -- Nothing about the account or the hypothesis is against writing.
  abbrev pub MayApproach : Account → Hypothesis → Type 0
  MayApproach a h =
      (a.synthetic ≡ false)
      × (a.suppressed ≡ false)
      × (domain_suppressed tenant suppressions a.domain ≡ false)
      × (is_weak h.quality ≡ false)
      × ((wants_strong policy.min_quality_for_auto_outreach ≡ false) ⊎ (is_strong h.quality ≡ true))

  -- The contact has an address, which is not suppressed, and a lawful basis.
  abbrev pub MayWrite : Contact → Type 0
  MayWrite c =
      (c.suppressed ≡ false)
      × (truthy c.email ≡ true)
      × (truthy (is_suppressed tenant suppressions (get_or c.email "") email) ≡ false)
      × (truthy c.consent_basis ≡ true)

  refuse_account_iff :
      (a : Account) (h : Hypothesis)
      → (refuse_account tenant suppressions a h policy ≡ none) ↔ MayApproach a h
  refuse_account_iff a h = ground arith

  refuse_address_iff : (c : Contact) → (refuse_address tenant suppressions c ≡ none) ↔ MayWrite c
  refuse_address_iff c = ground arith

  -- What may be written, to whom and about what.
  abbrev pub IsPermitted : Account → Hypothesis → Option Contact → ℕ → String → Contact → Type 0
  IsPermitted a h c step observation k =
      MayApproach a h
      × (head? h.evidence ≡ some observation)
      × (c ≡ some k)
      × MayWrite k
      × (is_some (first_service profile h.service_ids) ≡ true)
      × (w.clean (w.body_for observation h a k step) ≡ true)

  -- The message that is returned: a draft to the contact, with the text, for the observation.
  abbrev pub IsDraft : Account → Hypothesis → ℕ → String → Contact → Message → Type 0
  IsDraft a h step observation k m =
      (m.account_id ≡ a.id)
      × (m.hypothesis_id ≡ h.id)
      × (m.contact_id ≡ some k.id)
      × (m.step ≡ step)
      × (m.subject ≡ w.subject_for h a)
      × (m.body ≡ w.body_for observation h a k step)
      × (m.status ≡ draft)
      × (m.reason_for_contact ≡ observation)
      × (m.sent_at ≡ none)
      × (m.approved_by ≡ none)

  -- What a call of `compose` comes to.
  abbrev pub Answers :
      Account → Hypothesis → Option Contact → ℕ → ℕ → ℕ → Outbox → ComposeResult × Outbox → Type 0
  Answers a h c step fresh now db r =
      ((is_composed r.0 ≡ false)
        × (r.1 ≡ db)
        × ((observation : String) (k : Contact) → IsPermitted a h c step observation k → ⊥))
      ⊎ ((is_composed r.0 ≡ true)
          × ((observation : String) × (k : Contact) × IsPermitted a h c step observation k
              × ((m : Message) × (r.0 ≡ composed m) × IsDraft a h step observation k m)
              × (r.1
                  ≡ (save_outreach tenant (message_of w observation h a k step fresh now) db).1)))

  module _ (a : Account) (h : Hypothesis) (step fresh now : ℕ) (db : Outbox) where
    -- An answer that is known by an equation.
    refuses :
        (c : Option Contact) (r : ComposeResult × Outbox) (why : Refusal)
        → r ≡ (refused why, db)
        → ((o : String) (k : Contact) → IsPermitted a h c step o k → ⊥)
        → Answers a h c step fresh now db r
    refuses c r why is never = inl (ap (λ x. is_composed x.0) is, ap (λ x. x.1) is, never)

    as_stored-IsDraft :
        (o : String) (k : Contact) (x : Option Row)
        → IsDraft a h step o k (as_stored (message_of w o h a k step fresh now) x)
    as_stored-IsDraft o k none = (refl, refl, refl, refl, refl, refl, refl, refl, refl, refl)
    as_stored-IsDraft o k (some x) = (refl, refl, refl, refl, refl, refl, refl, refl, refl, refl)

    save_outreach-IsDraft :
        (o : String) (k : Contact)
        → IsDraft a h step o k (save_outreach tenant (message_of w o h a k step fresh now) db).0
    unfolding save_outreach
    save_outreach-IsDraft o k = as_stored-IsDraft o k _

    writes :
        (c : Option Contact) (r : ComposeResult × Outbox) (o : String) (k : Contact)
        → r
          ≡ save_composed w profile policy tenant suppressions
              (message_of w o h a k step fresh now)
              db
        → IsPermitted a h c step o k
        → Answers a h c step fresh now db r
    writes c r o k is may = inr (
      ap (λ x. is_composed x.0) is,
      (o, k, may, (_, ap (λ x. x.0) is, save_outreach-IsDraft o k), ap (λ x. x.1) is),
    )

    module _ (may : MayApproach a h) where
      write_to-Answers :
          (o : String) (k : Contact)
          → head? h.evidence ≡ some o
          → MayWrite k
          → Answers a h
              (some k)
              step
              fresh
              now
              db
              (write_to w profile policy tenant suppressions o a h k step fresh now db)
      write_to-Answers o k seen right =
          elim (Bool-cases (is_some (first_service profile h.service_ids))) [
            | inr e ↦
                refuses (some k) _ Refusal.nothing_to_offer (rw e refl)
                  (λ o' k' (_, _, _, _, offered, _). true_ne_false (sym offered ∙ e))
            | inl e ↦ elim (Bool-cases (w.clean (w.body_for o h a k step))) [
              | inl passes ↦
                  writes (some k) _ o k (rw (e, passes) refl) (may, seen, refl, right, e, passes)
              | inr fails ↦
                  refuses (some k) _ Refusal.failed_lint (rw (e, fails) refl)
                    (λ o' k' (_, seen', same, _, _, passes).
                      true_ne_false (sym passes ∙ other_text o' k' seen' same ∙ fails))
            ]
          ]
        where
          true_ne_false : true ≡ false → ⊥
          true_ne_false q = cc

          other_text :
              (o' : String) (k' : Contact)
              → head? h.evidence ≡ some o'
              → some k ≡ some k'
              → w.clean (w.body_for o' h a k' step) ≡ w.clean (w.body_for o h a k step)
          other_text o' k' seen' same = cc

      compose_contact-Answers :
          (o : String) (c : Option Contact)
          → head? h.evidence ≡ some o
          → Answers a h c step fresh now db
              (compose_contact w profile policy tenant suppressions o a h c step fresh now db)
      compose_contact-Answers o none seen =
          refuses none _ Refusal.no_contact refl
            (λ o' k' (_, _, same, _, _, _). some_ne_none k' (sym same))
      compose_contact-Answers o (some k) seen =
          elim (Option-cases (refuse_address tenant suppressions k)) [
            | inl e ↦
                subst
                  (λ x. Answers a h (some k) step fresh now db (
                    compose_address w profile policy tenant suppressions x o a h k step fresh now
                      db))
                  (sym e) (write_to-Answers o k seen ((refuse_address_iff k).0 e))
            | inr (r, e) ↦ refuses (some k) _ r (rw e refl) (λ o' k' (_, _, same, right, _, _).
                some_ne_none r (
                  sym e
                  ∙ ap (refuse_address tenant suppressions) (some_inj k k' same)
                  ∙ (refuse_address_iff k').1 right))
          ]

      compose_observation-Answers :
          (c : Option Contact)
          → Answers a h c step fresh now db (
              compose_observation w profile policy tenant suppressions
                (head? h.evidence)
                a
                h
                c
                step
                fresh
                now
                db)
      compose_observation-Answers c = elim (Option-cases (head? h.evidence)) [
        | inl e ↦
            refuses c _ Refusal.no_observation (rw e refl)
              (λ o k (_, seen, _, _, _, _). some_ne_none o (sym seen ∙ e))
        | inr (o, e) ↦
            subst
              (λ x. Answers a h c step fresh now db (
                compose_observation w profile policy tenant suppressions x a h c step fresh now db))
              (sym e) (compose_contact-Answers o c e)
      ]

  -- A message is composed exactly if the account is a real one and neither it nor its domain is
  -- suppressed, the hypothesis is good enough for the policy and has an observation, the contact is
  -- not suppressed and has an address that is not suppressed and a lawful basis, a service can be
  -- offered and the text passes the tests. What is then returned is a draft to that contact that
  -- nobody approved, with that text and with the observation as its reason, and the table is as
  -- saving the message leaves it. Otherwise nothing is saved.
  pub compose-IsPermitted :
      (a : Account) (h : Hypothesis) (c : Option Contact) (step fresh now : ℕ) (db : Outbox)
      → Answers a h c step fresh now db
          (compose w profile policy tenant suppressions a h c step fresh now db)
  unfolding compose
  compose-IsPermitted a h c step fresh now db =
      elim (Option-cases (refuse_account tenant suppressions a h policy)) [
        | inr (r, e) ↦
            refuses a h step fresh now db c _ r (rw e refl)
              (λ o k (may, _, _, _, _, _). some_ne_none r (sym e ∙ (refuse_account_iff a h).1 may))
        | inl e ↦
            subst
              (λ x.
                Answers a h c step fresh now db
                  (compose_account w profile policy tenant suppressions x a h c step fresh now db))
              (sym e)
              (compose_observation-Answers a h step fresh now db ((refuse_account_iff a h).0 e) c)
      ]
