-- ===== src/Gtm/Governance/Queue.antt =====
-- The table of decisions of src/lib/gtm/governance.ts: one open decision about each subject and
-- trigger, decided once.
use Prim.Native.String.{String}
use aijoes_app.Prelude.{
  ℕ, ◌≤◌, Bool, true, false, ◌≡◌, refl, ap, ◌∙◌, sym, ◌↔◌, inl, inr, none, is_some, List, [], ◌∷◌,
  ◌++◌, map, filter, find?, length, arith, Bool-cases, In, In-filter, In-of_filter, In-sort_by,
  In-of_sort_by, sort_by-IsSorted, IsSorted,
}
use aijoes_app.Gtm.Governance.{
  Decision, Decisions, DecisionInput, DecisionOutcome, EscalationTrigger, raise_decision,
  raise_decision_once, raised, open_on, resolve_decision, settle, decides, list_open_decisions,
  is_open_of, dearest, is_open, open_decision, status_of,
}
use aijoes_app.Gtm.Recovery.Counts.{length-filter_append}

abbrev pub open_count : ℕ → ℕ → EscalationTrigger → Decisions → ℕ
open_count tenant subject trigger db = length (filter (open_on tenant subject trigger) db)

-- A tenant has at most one open decision about a subject for a trigger.
abbrev pub IsSingle : Decisions → Type 0
IsSingle db =
    (tenant subject : ℕ) (trigger : EscalationTrigger) → open_count tenant subject trigger db ≤ 1

find?-none_length :
    {A : Type 0} (p : A → Bool) (xs : List A)
    → is_some (find? p xs) ≡ false
    → length (filter p xs) ≡ 0
find?-none_length p [] h = refl
find?-none_length p (x ∷ xs) h = ground (arith, find?-none_length p xs)

-- A test that holds of the new decision about one subject is the test for that subject.
open_on-raised :
    (tenant t s : ℕ) (g : EscalationTrigger) (input : DecisionInput) (fresh now : ℕ) (d : Decision)
    → open_on t s g (raised tenant input fresh now) ≡ true
    → open_on t s g d ≡ open_on tenant input.subject_id input.trigger d
open_on-raised tenant t s g input fresh now d h = ground arith

length-filter_of :
    {A : Type 0} (p q : A → Bool) (xs : List A)
    → ((x : A) → p x ≡ q x)
    → length (filter p xs) ≡ length (filter q xs)
length-filter_of p q [] same = refl
length-filter_of p q (x ∷ xs) same = ground (arith, same x, length-filter_of p q xs same)

length-filter-map :
    {A : Type 0} (p : A → Bool) (f : A → A) (xs : List A)
    → ((x : A) → p (f x) ≡ true → p x ≡ true)
    → length (filter p (map f xs)) ≤ length (filter p xs)
length-filter-map p f [] less = omega arith
length-filter-map p f (x ∷ xs) less = ground (arith, less x, length-filter-map p f xs less)

raise_decision_once-IsSingle :
    (tenant : ℕ) (input : DecisionInput) (fresh now : ℕ) (db : Decisions)
    → IsSingle db
    → IsSingle (raise_decision_once tenant input fresh now db).1
unfolding raise_decision_once raise_decision
raise_decision_once-IsSingle tenant input fresh now db single t s g =
    let here = open_on tenant input.subject_id input.trigger in
    let new = raised tenant input fresh now in
    elim (Bool-cases (is_some (find? here db))) [
      | inl e ↦ rw e (single t s g)
      | inr e ↦ rw e (
          let count = length-filter_append (open_on t s g) db new in
          elim (Bool-cases (open_on t s g new)) [
            | inl same ↦
                let none_here = find?-none_length here db e in
                let equal =
                  length-filter_of (open_on t s g) here db
                    (λ d. open_on-raised tenant t s g input fresh now d same) in
                ground arith
            | inr other ↦ let few = single t s g in ground arith
          ])
    ]

status_of-closed : (outcome : DecisionOutcome) → is_open (status_of outcome) ≡ false
status_of-closed outcome = ground arith

settle-open_on :
    (tenant k : ℕ) (outcome : DecisionOutcome) (by : ℕ) (note : String) (now t s : ℕ)
    (g : EscalationTrigger) (d : Decision)
    → open_on t s g (settle tenant k outcome by note now d) ≡ true
    → open_on t s g d ≡ true
settle-open_on tenant k outcome by note now t s g d h = ground (arith, status_of-closed outcome)

resolve_decision-IsSingle :
    (tenant k : ℕ) (outcome : DecisionOutcome) (by : ℕ) (note : String) (now : ℕ) (db : Decisions)
    → IsSingle db
    → IsSingle (resolve_decision tenant k outcome by note now db)
unfolding resolve_decision
resolve_decision-IsSingle tenant k outcome by note now db single t s g =
    let fewer =
      length-filter-map (open_on t s g) (settle tenant k outcome by note now) db
        (settle-open_on tenant k outcome by note now t s g) in
    let few = single t s g in omega arith

-- A table that `raiseDecisionOnce` and `resolveDecision` have built up.
pub data Reached : Decisions → Type 0 where
  empty : Reached []
  raised_once :
      (tenant : ℕ) (input : DecisionInput) (fresh now : ℕ) {db : Decisions}
      → Reached db
      → Reached (raise_decision_once tenant input fresh now db).1
  resolved :
      (tenant k : ℕ) (outcome : DecisionOutcome) (by : ℕ) (note : String) (now : ℕ) {db : Decisions}
      → Reached db
      → Reached (resolve_decision tenant k outcome by note now db)

-- However often the autopilot escalates and people decide, a tenant never has two open decisions
-- about one subject for one trigger.
pub Reached-IsSingle : {db : Decisions} → Reached db → IsSingle db
Reached-IsSingle empty = λ t s g. omega arith
Reached-IsSingle (raised_once tenant input fresh now {db} r) =
    raise_decision_once-IsSingle tenant input fresh now db (Reached-IsSingle r)
Reached-IsSingle (resolved tenant k outcome by note now {db} r) =
    resolve_decision-IsSingle tenant k outcome by note now db (Reached-IsSingle r)

find?-append_one :
    {A : Type 0} (p : A → Bool) (xs : List A) (a : A)
    → p a ≡ true
    → is_some (find? p (xs ++ a ∷ [])) ≡ true
find?-append_one p [] a h = ground arith
find?-append_one p (x ∷ xs) a h = ground (arith, find?-append_one p xs a)

raise_decision_once_quiet :
    (tenant : ℕ) (input : DecisionInput) (fresh now : ℕ) (db : Decisions)
    → is_some (find? (open_on tenant input.subject_id input.trigger) db) ≡ true
    → raise_decision_once tenant input fresh now db ≡ (none, db)
unfolding raise_decision_once
raise_decision_once_quiet tenant input fresh now db h = rw h refl

raise_decision_once_found :
    (tenant : ℕ) (input : DecisionInput) (fresh now : ℕ) (db : Decisions)
    → is_some (
        find?
          (open_on tenant input.subject_id input.trigger)
          (raise_decision_once tenant input fresh now db).1)
      ≡ true
unfolding raise_decision_once raise_decision
raise_decision_once_found tenant input fresh now db =
    let here = open_on tenant input.subject_id input.trigger in
    elim (Bool-cases (is_some (find? here db))) [
      | inl e ↦ rw e e
      | inr e ↦ rw e (find?-append_one here db (raised tenant input fresh now) (ground arith))
    ]

-- Escalating again what is already open, whatever the second escalation says and whenever it comes,
-- raises nothing and leaves the table as it is.
pub raise_decision_once_idem :
    (tenant : ℕ) (first second : DecisionInput) (fresh now fresh' now' : ℕ) (db : Decisions)
    → first.subject_id ≡ second.subject_id
    → first.trigger ≡ second.trigger
    → let db' = (raise_decision_once tenant first fresh now db).1 in
      raise_decision_once tenant second fresh' now' db' ≡ (none, db')
raise_decision_once_idem tenant first second fresh now fresh' now' db e e' =
    let db' = (raise_decision_once tenant first fresh now db).1 in
    raise_decision_once_quiet tenant second fresh' now' db' (
      ap (λ s. is_some (find? (open_on tenant s second.trigger) db')) (sym e)
      ∙ ap (λ g. is_some (find? (open_on tenant first.subject_id g) db')) (sym e')
      ∙ raise_decision_once_found tenant first fresh now db)

settle-settle :
    (tenant k : ℕ) (o o' : DecisionOutcome) (by by' : ℕ) (note note' : String) (now now' : ℕ)
    (d : Decision)
    → settle tenant k o' by' note' now' (settle tenant k o by note now d)
      ≡ settle tenant k o by note now d
settle-settle tenant k o o' by by' note note' now now' d = elim (Bool-cases (decides tenant k d)) [
  | inl e ↦
      let closed : decides tenant k (settle tenant k o by note now d) ≡ false =
        ground (arith, status_of-closed o) in
      rw closed refl
  | inr e ↦ rw (e, e) refl
]

-- A decision is made once: what a second person says about it later changes nothing.
pub resolve_decision-first :
    (tenant k : ℕ) (o o' : DecisionOutcome) (by by' : ℕ) (note note' : String) (now now' : ℕ)
    (db : Decisions)
    → resolve_decision tenant k o' by' note' now' (resolve_decision tenant k o by note now db)
      ≡ resolve_decision tenant k o by note now db
unfolding resolve_decision
resolve_decision-first tenant k o o' by by' note note' now now' [] = refl
resolve_decision-first tenant k o o' by by' note note' now now' (d ∷ db) = cc (
  settle-settle tenant k o o' by by' note note' now now' d,
  resolve_decision-first tenant k o o' by by' note note' now now' db,
)

-- The queue that a person reads holds exactly the tenant's open decisions, the dearest first.
pub list_open_decisions-IsSorted :
    (tenant : ℕ) (db : Decisions)
    → IsSorted dearest (list_open_decisions tenant db)
      × ((d : Decision)
          → In d (list_open_decisions tenant db)
            ↔ (In d db × (d.tenant_id ≡ tenant) × (d.status ≡ open_decision)))
unfolding list_open_decisions
list_open_decisions-IsSorted tenant db = (
  sort_by-IsSorted dearest (λ x y h. ground arith) (λ x y z h k. ground arith)
      (filter (is_open_of tenant) db),
  λ d. (
    λ m.
        let (listed, shown) =
          In-of_filter (is_open_of tenant) d db
            (In-of_sort_by dearest d (filter (is_open_of tenant) db) m) in
        let (own, undecided) = (is_open_of_iff tenant d).0 shown in (listed, own, undecided),
    λ (listed, own, undecided).
        In-sort_by dearest d (filter (is_open_of tenant) db) (
          In-filter (is_open_of tenant) d db listed ((is_open_of_iff tenant d).1 (own, undecided))),
  ),
)
  where
    is_open_of_iff :
        (tenant : ℕ) (d : Decision)
        → (is_open_of tenant d ≡ true) ↔ ((d.tenant_id ≡ tenant) × (d.status ≡ open_decision))
    is_open_of_iff tenant d = ground arith
