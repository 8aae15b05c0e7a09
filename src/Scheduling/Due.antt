-- ===== src/Scheduling/Due.antt =====
-- networth/scheduling.py: a full sync is not due exactly if committed successes answer all three reasons.
use networth.Prelude.{
  ℕ, ◌≤◌, ◌⊎◌, ◌≡◌, refl, subst, inl, inr, ◌↔◌, true, false, Option, none, some, List, [], ◌∷◌,
  arith, In,
}
use networth.Calendar.Market.{Calendar}
use networth.Store.Tables.{AccountRow, Database}
use networth.Store.Accounts.{is_syncable}
use networth.Scheduling.{successes, greater, greatest, before_or_absent}

-- A clock of the list is at least t exactly if the greatest is.
greater-reaches :
    (x : ℕ) (o : Option ℕ) (t : ℕ)
    → (before_or_absent (greater x o) t ≡ false) ↔ ((t ≤ x) ⊎ (before_or_absent o t ≡ false))
greater-reaches x none t = (λ h. inl (ground arith), λ h. ground arith)
greater-reaches x (some y) t = (λ h. ground arith, λ h. ground arith)

pub greatest-reaches :
    (f : ℕ × ℕ → ℕ) (ss : List (ℕ × ℕ)) (t : ℕ)
    → (before_or_absent (greatest f ss) t ≡ false) ↔ ((s : ℕ × ℕ) × In s ss × (t ≤ f s))
unfolding greatest
greatest-reaches f [] t = (λ h. cc, λ h. absurd h.1)
greatest-reaches f (s ∷ ss) t = (
  λ h. elim ((greater-reaches (f s) (greatest f ss) t).0 h) [
    | inl le ↦ (s, inl refl, le)
    | inr later ↦ let (r, m, le) = (greatest-reaches f ss t).0 later in (r, inr m, le)
  ],
  λ (r, m, le). (greater-reaches (f s) (greatest f ss) t).1 (elim m [
    | inl same ↦ inl (subst (λ x. t ≤ f x) same le)
    | inr later ↦ inr ((greatest-reaches f ss t).1 (r, later, le))
  ]),
)

-- Every syncable account was there when some successful full sync started.
abbrev pub AllCovered : Database → Type 0
AllCovered db =
    (a : AccountRow)
    → In a db.accounts
    → is_syncable a ≡ true
    → (s : ℕ × ℕ) × In s (successes db.runs) × (a.created_at ≤ s.0)
