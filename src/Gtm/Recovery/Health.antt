-- ===== src/Gtm/Recovery/Health.antt =====
-- `health` of src/lib/gtm/recovery.ts: when the engine counts as operational.
use aijoes_app.Prelude.{
  ℕ, zero, suc, ◌≤◌, Bool, true, false, not, ◌≡◌, refl, ap, ◌∙◌, ◌↔◌, inl, inr, some, List, [], ◌∷◌,
  ◌++◌, length, filter, any, In, any-In, In-of_append, In-filter, In-of_filter, In-sort_by,
  In-of_sort_by, arith, Bool-cases, sort_by, insert_by,
}
use aijoes_app.Gtm.Recovery.{unknown}
use aijoes_app.Gtm.Recovery.Rules.{rule_for-kind}
use aijoes_app.Gtm.Recovery.Table.{
  FailureRow, Failures, health, list_failures, reverse, newest_first, listed, take, stops,
}

In-append : {A : Type 0} (a : A) (xs ys : List A) → In a xs → In a (xs ++ ys)
In-append a [] ys m = absurd m
In-append a (x ∷ xs) ys m = ground (arith, In-append a xs ys)

In-append_right : {A : Type 0} (a : A) (xs ys : List A) → In a ys → In a (xs ++ ys)
In-append_right a [] ys m = m
In-append_right a (x ∷ xs) ys m = inr (In-append_right a xs ys m)

In-reverse : (f : FailureRow) (fs : Failures) → In f fs → In f (reverse fs)
In-reverse f [] m = absurd m
In-reverse f (x ∷ fs) (inl e) = In-append_right f (reverse fs) (x ∷ []) (inl e)
In-reverse f (x ∷ fs) (inr m) = In-append f (reverse fs) (x ∷ []) (In-reverse f fs m)

In-of_reverse : (f : FailureRow) (fs : Failures) → In f (reverse fs) → In f fs
In-of_reverse f [] m = m
In-of_reverse f (x ∷ fs) m = elim (In-of_append f (reverse fs) (x ∷ []) m) [
  | inl old ↦ inr (In-of_reverse f fs old)
  | inr (inl e) ↦ inl e
  | inr (inr none_left) ↦ absurd none_left
]

In-of_take : {A : Type 0} (a : A) (n : ℕ) (xs : List A) → In a (take n xs) → In a xs
In-of_take a zero xs m = absurd m
In-of_take a (suc n) [] m = m
In-of_take a (suc n) (x ∷ xs) (inl e) = inl e
In-of_take a (suc n) (x ∷ xs) (inr m) = inr (In-of_take a n xs m)

pub take_all : {A : Type 0} (n : ℕ) (xs : List A) → length xs ≤ n → take n xs ≡ xs
take_all zero [] h = refl
take_all zero (x ∷ xs) h = absurd (omega arith)
take_all (suc n) [] h = refl
take_all (suc n) (x ∷ xs) h = ap (λ l. x ∷ l) (take_all n xs (omega arith))

length-append : {A : Type 0} (xs : List A) (a : A) → length (xs ++ a ∷ []) ≡ suc (length xs)
length-append [] a = refl
length-append (x ∷ xs) a = ap suc (length-append xs a)

length-reverse : (fs : Failures) → length (reverse fs) ≡ length fs
length-reverse [] = refl
length-reverse (f ∷ fs) = length-append (reverse fs) f ∙ ap suc (length-reverse fs)

length-insert_by :
    {A : Type 0} (le : A → A → Bool) (x : A) (ys : List A)
    → length (insert_by le x ys) ≡ suc (length ys)
length-insert_by le x [] = refl
length-insert_by le x (y ∷ ys) = ground (arith, length-insert_by le x ys)

pub length-sort_by :
    {A : Type 0} (le : A → A → Bool) (xs : List A) → length (sort_by le xs) ≡ length xs
length-sort_by le [] = refl
length-sort_by le (x ∷ xs) = length-insert_by le x (sort_by le xs) ∙ ap suc (length-sort_by le xs)

-- The unresolved failures of a tenant.
abbrev pub unresolved_of : ℕ → Failures → Failures
unresolved_of tenant db = filter (listed tenant true) db

abbrev ordered : ℕ → Failures → Failures
ordered tenant db = sort_by newest_first (reverse (unresolved_of tenant db))

length-ordered :
    (tenant : ℕ) (db : Failures) → length (ordered tenant db) ≡ length (unresolved_of tenant db)
length-ordered tenant db =
    length-sort_by newest_first (reverse (unresolved_of tenant db))
    ∙ length-reverse (unresolved_of tenant db)

list_failures_all :
    (tenant : ℕ) (db : Failures)
    → length (unresolved_of tenant db) ≤ 500
    → list_failures tenant (some true) (some 500) db ≡ ordered tenant db
unfolding list_failures
list_failures_all tenant db few =
    take_all 500 (ordered tenant db) (let e = length-ordered tenant db in omega arith)

In-ordered :
    (tenant : ℕ) (f : FailureRow) (db : Failures)
    → (In f (ordered tenant db) → In f db × (listed tenant true f ≡ true))
      × (In f db → listed tenant true f ≡ true → In f (ordered tenant db))
In-ordered tenant f db = (
  λ m. In-of_filter (listed tenant true) f db (
      In-of_reverse f (unresolved_of tenant db)
        (In-of_sort_by newest_first f (reverse (unresolved_of tenant db)) m)),
  λ m h.
      In-sort_by newest_first f (reverse (unresolved_of tenant db))
        (In-reverse f (unresolved_of tenant db) (In-filter (listed tenant true) f db m h)),
)

any-eq_true :
    {A : Type 0} (p : A → Bool) (xs : List A) → any p xs ≡ true → (a : A) × In a xs × (p a ≡ true)
any-eq_true p [] h = absurd (cc)
any-eq_true p (x ∷ xs) h = elim (Bool-cases (p x)) [
  | inl e ↦ (x, inl refl, e)
  | inr e ↦ let (a, m, k) = any-eq_true p xs (ground arith) in (a, inr m, k)
]

-- A failure that is not resolved and whose kind nobody knows.
abbrev pub IsUnsafe : ℕ → Failures → FailureRow → Type 0
IsUnsafe tenant db f = In f db × (f.tenant_id ≡ tenant) × (f.resolved ≡ false) × (f.kind ≡ unknown)

stops-unknown : (f : FailureRow) → (stops f ≡ true) ↔ (f.kind ≡ unknown)
stops-unknown f =
    let (to, from) = (rule_for-kind f.kind).1 in (λ h. to (ground arith), λ h. ap not (from h))

listed_iff :
    (tenant : ℕ) (f : FailureRow)
    → (listed tenant true f ≡ true) ↔ ((f.tenant_id ≡ tenant) × (f.resolved ≡ false))
listed_iff tenant f = ground arith

-- While a tenant has at most 500 unresolved failures, `health` counts them all, and says that the
-- engine is not operational exactly when one of them is unknown.
pub health-operational :
    (tenant : ℕ) (db : Failures)
    → length (unresolved_of tenant db) ≤ 500
    → ((health tenant db).unresolved ≡ length (unresolved_of tenant db))
      × (((health tenant db).operational ≡ false) ↔ ((f : FailureRow) × IsUnsafe tenant db f))
unfolding health
health-operational tenant db few = rw (list_failures_all tenant db few) (
  length-ordered tenant db,
  (
    λ h.
        let (f, m, s) = any-eq_true stops (ordered tenant db) (ground arith) in
        let (k, l) = (In-ordered tenant f db).0 m in
        let (t, r) = (listed_iff tenant f).0 l in (f, (k, t, r, (stops-unknown f).0 s)),
    λ (f, (m, t, r, u)). ap not (
        any-In stops f (ordered tenant db)
          ((In-ordered tenant f db).1 m ((listed_iff tenant f).1 (t, r))) ((stops-unknown f).1 u)),
  ),
)
