-- ===== src/Prelude/Sort.antt =====
-- Python's `sorted` with a key, as a stable insertion sort by a Boolean order, and `xs[-1]`.
use mathlib.Core.Path.{◌≡◌, refl}
use mathlib.Core.Logic.{◌⊎◌, inl, inr}
use mathlib.Core.Bool.{Bool, true, false}
use mathlib.Core.Option.{Option, none, some}
use mathlib.Core.List.{List, [], ◌∷◌}
use networth.Prelude.Tests.{if◌then◌else◌, Bool-cases}
use networth.Prelude.Lists.{In, All, All-In, All-keep, keep, count}
use native.Mathlib.Omega.{arith}

module _ {A : Type 0} (before : A → A → Bool) where
  abbrev pub insert : A → List A → List A
  insert x [] = x ∷ []
  insert x (y ∷ ys) = let later = y ∷ insert x ys in if before x y then x ∷ y ∷ ys else later

  unfoldable pub sort : List A → List A
  sort [] = []
  sort (x ∷ xs) = insert x (sort xs)

  In-insert : (a x : A) (ys : List A) → In a (insert x ys) → (a ≡ x) ⊎ In a ys
  In-insert a x [] h = h
  In-insert a x (y ∷ ys) h = elim (Bool-cases (before x y)) [
    | inl e ↦ rw e at h
    | inr e ↦ elim (let h' : (a ≡ y) ⊎ In a (insert x ys) = (rw e at h) in h') [
      | inl first ↦ inr (inl first)
      | inr later ↦ elim (In-insert a x ys later) [ inl p ↦ inl p | inr p ↦ inr (inr p) ]
    ]
  ]

  insert-In : (a x : A) (ys : List A) → (a ≡ x) ⊎ In a ys → In a (insert x ys)
  insert-In a x [] h = h
  insert-In a x (y ∷ ys) h = elim (Bool-cases (before x y)) [
    | inl e ↦ rw e h
    | inr e ↦ rw e (elim h [
      | inl p ↦ inr (insert-In a x ys (inl p))
      | inr (inl p) ↦ inl p
      | inr (inr p) ↦ inr (insert-In a x ys (inr p))
    ])
  ]

  -- Sorting keeps the members.
  pub sort-In : (a : A) (xs : List A) → In a (sort xs) → In a xs
  unfolding sort
  sort-In a [] h = h
  sort-In a (x ∷ xs) h = elim (In-insert a x (sort xs) h) [
    | inl p ↦ inl p
    | inr p ↦ inr (sort-In a xs p)
  ]

  pub In-sort : (a : A) (xs : List A) → In a xs → In a (sort xs)
  unfolding sort
  In-sort a [] h = h
  In-sort a (x ∷ xs) (inl p) = insert-In a x (sort xs) (inl p)
  In-sort a (x ∷ xs) (inr p) = insert-In a x (sort xs) (inr (In-sort a xs p))

  -- A member that a filter drops can be left out before sorting.
  pub keep-insert_dropped :
      (p : A → Bool) (x : A) (ys : List A) → p x ≡ false → keep p (insert x ys) ≡ keep p ys
  keep-insert_dropped p x [] h = rw h refl
  keep-insert_dropped p x (y ∷ ys) h = elim (Bool-cases (before x y)) [
    | inl e ↦ rw (e, h) refl
    | inr e ↦ rw (e, keep-insert_dropped p x ys h) refl
  ]

  count-insert : (p : A → Bool) (x : A) (ys : List A) → count p (insert x ys) ≡ count p (x ∷ ys)
  count-insert p x [] = refl
  count-insert p x (y ∷ ys) = ground (arith, count-insert p x ys)

  -- Sorting changes no count.
  pub count-sort : (p : A → Bool) (xs : List A) → count p (sort xs) ≡ count p xs
  unfolding sort
  count-sort p [] = refl
  count-sort p (x ∷ xs) = ground (arith, count-insert p x (sort xs), count-sort p xs)

  abbrev pub IsSorted : List A → Type 0
  IsSorted [] = Unit
  IsSorted (x ∷ xs) = All (λ y. before x y ≡ true) xs × IsSorted xs

  module _ (total : (x y : A) → before x y ≡ false → before y x ≡ true)
      (trans : (x y z : A) → before x y ≡ true → before y z ≡ true → before x z ≡ true) where
    All-insert : (P : A → Type 0) (x : A) (ys : List A) → P x → All P ys → All P (insert x ys)
    All-insert P x [] p h = (p, tt)
    All-insert P x (y ∷ ys) p h = elim (Bool-cases (before x y)) [
      | inl e ↦ rw e (p, h)
      | inr e ↦ rw e (h.0, All-insert P x ys p h.1)
    ]

    All-mono :
        (x y : A) (zs : List A)
        → before x y ≡ true
        → All (λ z. before y z ≡ true) zs
        → All (λ z. before x z ≡ true) zs
    All-mono x y [] e h = tt
    All-mono x y (z ∷ zs) e h = (trans x y z e h.0, All-mono x y zs e h.1)

    insert-IsSorted : (x : A) (ys : List A) → IsSorted ys → IsSorted (insert x ys)
    insert-IsSorted x [] h = (tt, tt)
    insert-IsSorted x (y ∷ ys) h = elim (Bool-cases (before x y)) [
      | inl e ↦ rw e ((e, All-mono x y ys e h.0), h)
      | inr e ↦
          rw e
            (All-insert (λ z. before y z ≡ true) x ys (total x y e) h.0, insert-IsSorted x ys h.1)
    ]

    pub sort-IsSorted : (xs : List A) → IsSorted (sort xs)
    unfolding sort
    sort-IsSorted [] = tt
    sort-IsSorted (x ∷ xs) = insert-IsSorted x (sort xs) (sort-IsSorted xs)

-- `xs[-1] if xs else None`
abbrev pub last_of {ℓ} : {A : Type ℓ} → A → List A → A
last_of x [] = x
last_of x (y ∷ ys) = last_of y ys

abbrev pub last {ℓ} : {A : Type ℓ} → List A → Option A
last [] = none
last (x ∷ xs) = some (last_of x xs)

module _ {A : Type 0} (before : A → A → Bool) where
  pub keep-IsSorted :
      (p : A → Bool) (xs : List A) → IsSorted before xs → IsSorted before (keep p xs)
  keep-IsSorted p [] h = tt
  keep-IsSorted p (x ∷ xs) h = elim (Bool-cases (p x)) [
    | inl e ↦ rw e (All-keep p (λ y. before x y ≡ true) xs h.0, keep-IsSorted p xs h.1)
    | inr e ↦ rw e (keep-IsSorted p xs h.1)
  ]

  -- The last member of a sorted list is a member, and none comes after it.
  pub last_of-In : (x : A) (xs : List A) → In (last_of x xs) (x ∷ xs)
  last_of-In x [] = inl refl
  last_of-In x (y ∷ ys) = inr (last_of-In y ys)

  pub last_of-greatest :
      ((a : A) → before a a ≡ true)
      → (x : A) (xs : List A) → IsSorted before (x ∷ xs)
      → (a : A) → In a (x ∷ xs)
      → before a (last_of x xs) ≡ true
  last_of-greatest reflexive x [] h a (inl e) = rw e (reflexive x)
  last_of-greatest reflexive x [] h a (inr m) = absurd m
  last_of-greatest reflexive x (y ∷ ys) h a (inl e) =
      rw e (All-In (last_of y ys) (λ z. before x z ≡ true) (y ∷ ys) h.0 (last_of-In y ys))
  last_of-greatest reflexive x (y ∷ ys) h a (inr m) = last_of-greatest reflexive y ys h.1 a m
