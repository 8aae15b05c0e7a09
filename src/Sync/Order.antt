-- ===== src/Sync/Order.antt =====
-- networth/sync.py: grouping by Item and splitting by policy reorder the targets, and lose none.
use mathlib.Core.List.{Perm, perm_middle, append_assoc, append-nil}
use mathlib.Core.List.Perm
use networth.Prelude.{
  ℕ, Bool, true, false, ◌≡◌, sym, subst, inl, inr, Bool-cases, List, [], ◌∷◌, ◌++◌, ◌==◌, All, keep,
  All-append_one, arith,
}
use networth.Model.Account.{LinkedAccount}
use networth.Model.Freshness.{FreshnessPolicy, requires_item}
use networth.Sync.Cycle.{is_balance, is_holdings, add_to, grouped}

-- The account is synced, as the checks of `LinkedAccount` have it.
abbrev pub IsSynced : LinkedAccount → Type 0
IsSynced t = requires_item t.freshness_policy ≡ true

abbrev of_balance : LinkedAccount → Bool
of_balance t = is_balance t.freshness_policy

abbrev of_holdings : LinkedAccount → Bool
of_holdings t = is_holdings t.freshness_policy

other_policy :
    (p : FreshnessPolicy) → requires_item p ≡ true → is_balance p ≡ false → is_holdings p ≡ true
unfolding requires_item
other_policy p h e = ground arith

one_policy : (p : FreshnessPolicy) → is_balance p ≡ true → is_holdings p ≡ false
one_policy p h = ground arith

-- The two products split the targets.
pub Perm-policies :
    (ts : List LinkedAccount)
    → All IsSynced ts
    → Perm (keep of_balance ts ++ keep of_holdings ts) ts
Perm-policies [] h = Perm.refl []
Perm-policies (t ∷ ts) (h, hs) = elim (Bool-cases (of_balance t)) [
  | inl e ↦ rw (e, one_policy t.freshness_policy e) (Perm.cons t (Perm-policies ts hs))
  | inr e ↦
      rw (e, other_policy t.freshness_policy h e)
        (Perm.trans (perm_middle (keep of_balance ts) (keep of_holdings ts))
          (Perm.cons t (Perm-policies ts hs)))
]

-- The targets of every group, in the order of the groups.
abbrev pub flat : List (ℕ × List LinkedAccount) → List LinkedAccount
flat [] = []
flat ((item_id, ts) ∷ groups) = ts ++ flat groups

Perm-add_to :
    (t : LinkedAccount) (groups : List (ℕ × List LinkedAccount))
    → Perm (flat (add_to t groups)) (t ∷ flat groups)
Perm-add_to t [] = Perm.refl (t ∷ [])
Perm-add_to t ((item_id, ts) ∷ groups) = elim (Bool-cases (t.item_id == item_id)) [
  | inl e ↦ rw e (
      subst (λ xs. Perm xs (t ∷ (ts ++ flat groups))) (sym (append_assoc ts (t ∷ []) (flat groups)))
        (perm_middle ts (flat groups)))
  | inr e ↦
      rw e (Perm.trans (Perm.append_left ts (Perm-add_to t groups)) (perm_middle ts (flat groups)))
]

-- Grouping keeps every target.
pub Perm-grouped :
    (groups : List (ℕ × List LinkedAccount)) (ts : List LinkedAccount)
    → Perm (flat (grouped groups ts)) (flat groups ++ ts)
unfolding grouped
Perm-grouped groups [] = subst (Perm (flat groups)) (sym (append-nil (flat groups))) (Perm.refl _)
Perm-grouped groups (t ∷ ts) = Perm.trans (Perm-grouped (add_to t groups) ts) (
    Perm.trans (Perm.append_right ts (Perm-add_to t groups))
      (Perm.symm (perm_middle (flat groups) ts)))

abbrev pub AllGrouped : List (ℕ × List LinkedAccount) → Type 0
AllGrouped [] = Unit
AllGrouped ((item_id, ts) ∷ groups) = All IsSynced ts × AllGrouped groups

AllGrouped-add_to :
    (t : LinkedAccount) (groups : List (ℕ × List LinkedAccount))
    → IsSynced t
    → AllGrouped groups
    → AllGrouped (add_to t groups)
AllGrouped-add_to t [] h hs = ((h, tt), tt)
AllGrouped-add_to t ((item_id, ts) ∷ groups) h (hs, hg) = elim (Bool-cases (t.item_id == item_id)) [
  | inl e ↦ rw e (All-append_one IsSynced ts t hs h, hg)
  | inr e ↦ rw e (hs, AllGrouped-add_to t groups h hg)
]

pub AllGrouped-grouped :
    (groups : List (ℕ × List LinkedAccount)) (ts : List LinkedAccount)
    → AllGrouped groups
    → All IsSynced ts
    → AllGrouped (grouped groups ts)
unfolding grouped
AllGrouped-grouped groups [] hg h = hg
AllGrouped-grouped groups (t ∷ ts) hg (h, hs) =
    AllGrouped-grouped (add_to t groups) ts (AllGrouped-add_to t groups h hg) hs
