-- ===== src/Prelude/Lists.antt =====
-- Lists searched and filtered by Boolean tests, as the source's array methods do it, with their
-- laws, and a stable sort whose head is least.
use Prim.Native.Nat.{ℕ, suc}
use mathlib.Core.Path.{◌≡◌, refl, ap}
use mathlib.Core.Logic.{◌≢◌, ◌⊎◌, inl, inr}
use mathlib.Core.Bool.{Bool, true, false, ◌&&◌, ◌||◌}
use mathlib.Core.Option.{Option, none, some}
use mathlib.Core.List.{List, [], ◌∷◌, ◌++◌, map}
use native.Mathlib.Omega.{arith}
use aijoes_app.Prelude.Tests.{if◌then◌else◌, Bool-cases}

module _ {ℓ} {A : Type ℓ} where
  abbrev pub length : List A → ℕ
  length [] = 0
  length (x ∷ xs) = suc (length xs)

  -- `xs.filter(p)`
  abbrev pub filter : (A → Bool) → List A → List A
  filter p [] = []
  filter p (x ∷ xs) = if p x then x ∷ filter p xs else filter p xs

  -- `xs.find(p)`
  abbrev pub find? : (A → Bool) → List A → Option A
  find? p [] = none
  find? p (x ∷ xs) = if p x then some x else find? p xs

  -- `xs.some(p)`
  abbrev pub any : (A → Bool) → List A → Bool
  any p [] = false
  any p (x ∷ xs) = p x || any p xs

  -- `xs.every(p)`
  abbrev pub all : (A → Bool) → List A → Bool
  all p [] = true
  all p (x ∷ xs) = p x && all p xs

  abbrev pub head? : List A → Option A
  head? [] = none
  head? (x ∷ xs) = some x

  -- A statement of every element.
  abbrev pub All {κ} : (A → Type κ) → List A → Type κ
  All P [] = Unit
  All P (x ∷ xs) = P x × All P xs

-- A position of the list holds the value.
abbrev pub In : {A : Type 0} → A → List A → Type 0
In a [] = ⊥
In a (x ∷ xs) = (a ≡ x) ⊎ In a xs

pub All-In : {A : Type 0} (P : A → Type 0) (a : A) (xs : List A) → All P xs → In a xs → P a
All-In P a [] h m = absurd m
All-In P a (x ∷ xs) h (inl e) = rw e (h.0)
All-In P a (x ∷ xs) h (inr m) = All-In P a xs h.1 m

pub All-filter :
    {A : Type 0} (P : A → Type 0) (p : A → Bool) (xs : List A) → All P xs → All P (filter p xs)
All-filter P p [] h = tt
All-filter P p (x ∷ xs) h = ground (arith, All-filter P p xs h.1)

pub filter-holds : {A : Type 0} (p : A → Bool) (xs : List A) → All (λ x. p x ≡ true) (filter p xs)
filter-holds p [] = tt
filter-holds p (x ∷ xs) = ground (arith, filter-holds p xs)

pub In-of_filter :
    {A : Type 0} (p : A → Bool) (a : A) (xs : List A) → In a (filter p xs) → In a xs × (p a ≡ true)
In-of_filter p a [] m = absurd m
In-of_filter p a (x ∷ xs) m = ground (arith, In-of_filter p a xs)

pub In-filter :
    {A : Type 0} (p : A → Bool) (a : A) (xs : List A) → In a xs → p a ≡ true → In a (filter p xs)
In-filter p a [] m h = absurd m
In-filter p a (x ∷ xs) m h = ground (arith, In-filter p a xs)

pub find?-eq_some :
    {A : Type 0} (p : A → Bool) (a : A) (xs : List A) → find? p xs ≡ some a → In a xs × (p a ≡ true)
find?-eq_some p a [] e = cc
find?-eq_some p a (x ∷ xs) e = ground (arith, find?-eq_some p a xs)

pub In-of_head? : {A : Type 0} (xs : List A) (h : A) → head? xs ≡ some h → In h xs
In-of_head? [] h e = cc
In-of_head? (x ∷ xs) h e = inl (cc)

pub head?-ne_none : {A : Type 0} (xs : List A) (a : A) → In a xs → head? xs ≢ none
head?-ne_none [] a m e = absurd m
head?-ne_none (x ∷ xs) a m e = cc

-- A map that keeps the test, and keeps each element that passes it, does not show in the filter.
pub filter-map_of :
    {A : Type 0} (p : A → Bool) (f : A → A) (xs : List A)
    → ((x : A) → p (f x) ≡ p x)
    → ((x : A) → p x ≡ true → f x ≡ x)
    → filter p (map f xs) ≡ filter p xs
filter-map_of p f [] same fixed = refl
filter-map_of p f (x ∷ xs) same fixed = elim (Bool-cases (p x)) [
  | inl t ↦ rw (same x, t, fixed x t, filter-map_of p f xs same fixed)
  | inr n ↦ rw (same x, n, filter-map_of p f xs same fixed)
]

pub In-of_map :
    {A : Type 0} (f : A → A) (y : A) (xs : List A) → In y (map f xs) → (x : A) × In x xs × (y ≡ f x)
In-of_map f y [] m = absurd m
In-of_map f y (x ∷ xs) (inl e) = (x, inl refl, e)
In-of_map f y (x ∷ xs) (inr m) = let (z, k, e) = In-of_map f y xs m in (z, inr k, e)

pub In-map : {A : Type 0} (f : A → A) (x : A) (xs : List A) → In x xs → In (f x) (map f xs)
In-map f x [] m = absurd m
In-map f x (y ∷ ys) (inl e) = inl (ap f e)
In-map f x (y ∷ ys) (inr m) = inr (In-map f x ys m)

pub In-of_append : {A : Type 0} (a : A) (xs ys : List A) → In a (xs ++ ys) → In a xs ⊎ In a ys
In-of_append a [] ys m = inr m
In-of_append a (x ∷ xs) ys m = ground (arith, In-of_append a xs ys)

abbrev pub map_option {ℓ} : {A B : Type ℓ} → (A → B) → Option A → Option B
map_option f none = none
map_option f (some a) = some (f a)

-- A search after a map that keeps the test.
pub find?-map_of :
    {A : Type 0} (p : A → Bool) (f : A → A) (xs : List A)
    → ((x : A) → p (f x) ≡ p x)
    → find? p (map f xs) ≡ map_option f (find? p xs)
find?-map_of p f [] same = refl
find?-map_of p f (x ∷ xs) same = elim (Bool-cases (p x)) [
  | inl t ↦ rw (same x, t)
  | inr n ↦ rw (same x, n, find?-map_of p f xs same)
]

pub find?-append_of_some :
    {A : Type 0} (p : A → Bool) (xs ys : List A) (a : A)
    → find? p xs ≡ some a
    → find? p (xs ++ ys) ≡ some a
find?-append_of_some p [] ys a e = cc
find?-append_of_some p (x ∷ xs) ys a e = ground (arith, find?-append_of_some p xs ys a)

pub find?-append_of_none :
    {A : Type 0} (p : A → Bool) (xs ys : List A)
    → find? p xs ≡ none
    → find? p (xs ++ ys) ≡ find? p ys
find?-append_of_none p [] ys e = refl
find?-append_of_none p (x ∷ xs) ys e = ground (arith, find?-append_of_none p xs ys)

pub any-In :
    {A : Type 0} (p : A → Bool) (a : A) (xs : List A) → In a xs → p a ≡ true → any p xs ≡ true
any-In p a [] m h = absurd m
any-In p a (x ∷ xs) m h = ground (arith, any-In p a xs)

-- `Array.prototype.sort` with the order `le`: stable insertion of each element before the later
-- ones that are not smaller.
module _ {A : Type 0} (le : A → A → Bool) where
  abbrev pub insert_by : A → List A → List A
  insert_by x [] = x ∷ []
  insert_by x (y ∷ ys) = if le x y then x ∷ y ∷ ys else y ∷ insert_by x ys

  abbrev pub sort_by : List A → List A
  sort_by [] = []
  sort_by (x ∷ xs) = insert_by x (sort_by xs)

  pub In-of_insert_by : (a x : A) (ys : List A) → In a (insert_by x ys) → (a ≡ x) ⊎ In a ys
  In-of_insert_by a x [] m = m
  In-of_insert_by a x (y ∷ ys) m = ground (arith, In-of_insert_by a x ys)

  pub In-of_sort_by : (a : A) (xs : List A) → In a (sort_by xs) → In a xs
  In-of_sort_by a [] m = m
  In-of_sort_by a (x ∷ xs) m =
      ground (arith, In-of_insert_by a x (sort_by xs) m, In-of_sort_by a xs)

  pub In-insert_by : (a x : A) (ys : List A) → (a ≡ x) ⊎ In a ys → In a (insert_by x ys)
  In-insert_by a x [] m = m
  In-insert_by a x (y ∷ ys) m = ground (arith, In-insert_by a x ys)

  pub In-sort_by : (a : A) (xs : List A) → In a xs → In a (sort_by xs)
  In-sort_by a [] m = m
  In-sort_by a (x ∷ xs) m = ground (arith, In-insert_by a x (sort_by xs), In-sort_by a xs)

  -- Each element is below all the later ones.
  abbrev pub IsSorted : List A → Type 0
  IsSorted [] = Unit
  IsSorted (x ∷ xs) = All (λ y. le x y ≡ true) xs × IsSorted xs

  pub All-insert_by :
      (P : A → Type 0) (x : A) (ys : List A) → P x → All P ys → All P (insert_by x ys)
  All-insert_by P x [] p h = (p, tt)
  All-insert_by P x (y ∷ ys) p h = ground (arith, All-insert_by P x ys p h.1)

  module _ (le_total : (x y : A) → le x y ≡ false → le y x ≡ true)
      (le_trans : (x y z : A) → le x y ≡ true → le y z ≡ true → le x z ≡ true) where
    All-le_trans :
        (a b : A) (xs : List A)
        → le a b ≡ true
        → All (λ x. le b x ≡ true) xs
        → All (λ x. le a x ≡ true) xs
    All-le_trans a b [] h k = tt
    All-le_trans a b (x ∷ xs) h k = (le_trans a b x h k.0, All-le_trans a b xs h k.1)

    insert_by-IsSorted : (x : A) (ys : List A) → IsSorted ys → IsSorted (insert_by x ys)
    insert_by-IsSorted x [] h = (tt, tt)
    insert_by-IsSorted x (y ∷ ys) h = elim (Bool-cases (le x y)) [
      | inl below ↦ rw below ((below, All-le_trans x y ys below h.0), h)
      | inr above ↦ rw above (
        All-insert_by (λ z. le y z ≡ true) x ys (le_total x y above) h.0,
        insert_by-IsSorted x ys h.1,
      )
    ]

    pub sort_by-IsSorted : (xs : List A) → IsSorted (sort_by xs)
    sort_by-IsSorted [] = tt
    sort_by-IsSorted (x ∷ xs) = insert_by-IsSorted x (sort_by xs) (sort_by-IsSorted xs)

    head-le :
        (h a : A) (s : List A) → IsSorted s → head? s ≡ some h → In a s → (a ≡ h) ⊎ (le h a ≡ true)
    head-le h a [] k e m = absurd m
    head-le h a (y ∷ ys) k e (inl q) = inl (cc)
    head-le h a (y ∷ ys) k e (inr m) =
        (let below = All-In (λ z. le y z ≡ true) a ys k.0 m in ground arith)

    -- The head of the sorted list is below every element of the list.
    pub head-sort_by-le :
        (h a : A) (xs : List A) → head? (sort_by xs) ≡ some h → In a xs → le h a ≡ true
    head-sort_by-le h a xs e m =
        elim (head-le h a (sort_by xs) (sort_by-IsSorted xs) e (In-sort_by a xs m)) [
          | inl q ↦ rw q (elim (Bool-cases (le h h)) [ inl t ↦ t | inr f ↦ le_total h h f ])
          | inr t ↦ t
        ]

  pub In-of_head : (h : A) (xs : List A) → head? (sort_by xs) ≡ some h → In h xs
  In-of_head h xs e = In-of_sort_by h xs (In-of_head? (sort_by xs) h e)
