-- ===== src/Prelude/Minimum.antt =====
-- `min` of a list of numbers: it is a member, and a lower bound.
use networth.Prelude.{
  ℕ, ◌≤◌, ◌≡◌, refl, sym, inl, inr, some, List, [], ◌∷◌, arith, leb, if◌then◌else◌, minimum, lesser,
  In, All, Bool-cases, Option-cases, subst,
}

pub minimum-some : (x : ℕ) (xs : List ℕ) → (m : ℕ) × (minimum (x ∷ xs) ≡ some m)
unfolding minimum
minimum-some x xs = elim (Option-cases (minimum xs)) [
  | inl e ↦ (x, rw e refl)
  | inr (y, e) ↦ ((if leb x y then x else y), rw e refl)
]

All-le_trans : (a b : ℕ) (l : List ℕ) → a ≤ b → All (λ x. b ≤ x) l → All (λ x. a ≤ x) l
All-le_trans a b [] le h = tt
All-le_trans a b (x ∷ xs) le h = (omega (arith, h.0), All-le_trans a b xs le h.1)

-- The minimum is a member, and a lower bound.
pub minimum-least : (l : List ℕ) (m : ℕ) → minimum l ≡ some m → In m l × All (λ x. m ≤ x) l
unfolding minimum
minimum-least [] m h = cc
minimum-least (x ∷ []) m h = let same : m ≡ x = cc h in (inl same, (omega (arith, same), tt))
minimum-least (x ∷ y ∷ ys) m h =
    let (n, e) = minimum-some y ys in
    let (member, least) = minimum-least (y ∷ ys) n e in
    let shown : some (if leb x n then x else n) ≡ some m = subst (λ o. lesser x o ≡ some m) e h in
    elim (Bool-cases (leb x n)) [
      | inl low ↦
          let same : m ≡ x = ground arith in
          (inl same, (omega (arith, same), All-le_trans m n (y ∷ ys) (ground arith) least))
      | inr high ↦
          let same : m ≡ n = ground arith in
          (
            inr (subst (λ k. In k (y ∷ ys)) (sym same) member),
            (ground arith, All-le_trans m n (y ∷ ys) (omega (arith, same)) least),
          )
    ]
