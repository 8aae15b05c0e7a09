-- ===== src/Sync/Targets.antt =====
-- networth/store/sqlite.py: the accounts that `syncable` returns are synced ones.
use networth.Prelude.{
  ℕ, ◌≡◌, subst, Option, none, some, String, List, [], ◌∷◌, All, All-In, All-of_In, keep, arith,
}
use networth.Prelude.Result.{Result, ok, ok-injective, >>=-eq-ok}
use networth.Prelude.Sort.{sort, sort-In}
use networth.Model.Account.{LinkedAccount, new_linked_account}
use networth.Store.Tables.{AccountRow, convert}
use networth.Store.Latest.{from_row-eq-ok}
use networth.Store.Accounts.{syncable, is_syncable, linked_of, linked_account_from_row, by_item}
use networth.Sync.Order.{IsSynced}

-- A conversion whose results all satisfy a predicate.
pub convert-All {ℓ κ μ} :
    {A : Type ℓ} {B : Type κ} (Q : B → Type μ) (f : A → Result B)
    → ((a : A) (b : B) → f a ≡ ok b → Q b)
    → (xs : List A) (ys : List B) → convert f xs ≡ ok ys
    → All Q ys
unfolding convert
convert-All Q f each [] ys h = subst (All Q) (ok-injective h) tt
convert-All Q f each (x ∷ xs) ys h =
    let (y, made, rest) = >>=-eq-ok (f x) _ h in
    let (zs, made', last) = >>=-eq-ok (convert f xs) _ rest in
    subst (All Q) (ok-injective last) (each x y made, convert-All Q f each xs zs made')

new_linked_account-IsSynced : (x t : LinkedAccount) → new_linked_account x ≡ ok t → IsSynced t
unfolding new_linked_account
new_linked_account-IsSynced x t h = ground arith

linked_of-IsSynced :
    (row : AccountRow) (item : Option ℕ) (plaid : Option String) (t : LinkedAccount)
    → linked_of row item plaid ≡ ok t
    → IsSynced t
linked_of-IsSynced row (some item) (some plaid) t h = new_linked_account-IsSynced _ t h
linked_of-IsSynced row (some item) none t h = cc
linked_of-IsSynced row none plaid t h = cc

linked_account_from_row-IsSynced :
    (row : AccountRow) (t : LinkedAccount) → linked_account_from_row row ≡ ok t → IsSynced t
unfolding linked_account_from_row
linked_account_from_row-IsSynced row t h =
    linked_of-IsSynced row row.item_id row.plaid_account_id t
      (from_row-eq-ok (linked_of row row.item_id row.plaid_account_id) t h)

pub syncable-All :
    (rows : List AccountRow) (ts : List LinkedAccount) → syncable rows ≡ ok ts → All IsSynced ts
unfolding syncable
syncable-All rows ts h =
    let (found, made, last) =
      >>=-eq-ok (convert linked_account_from_row (keep is_syncable rows)) _ h in
    let each =
      convert-All IsSynced linked_account_from_row linked_account_from_row-IsSynced _ found made in
    subst (All IsSynced) (ok-injective last) (
      All-of_In IsSynced (sort by_item found)
        (λ t m. All-In t IsSynced found each (sort-In by_item t found m)))
