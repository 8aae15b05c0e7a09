-- ===== src/Store/Tables.antt =====
-- The tables that networth/store/sqlite.py reads and writes. A table is the list of its rows in the
-- order of their integer primary key; a timestamp column holds the instant that its text spells
-- (the writers spell every instant with six decimals, so texts and instants have one order). The
-- caller owns the transaction: a call that raises leaves no table behind.
use networth.Prelude.{ℕ, Bool, true, false, Option, none, some, String, List, [], ◌∷◌, ◌≡◌, refl}
use networth.Prelude.Int.{ℤ}
use networth.Prelude.Result.{Result, ok, err, ◌>>=◌, stored_data}
use networth.Model.Item.{ItemHealth}
use networth.Model.Account.{ReconciliationState}
use networth.Model.Freshness.{FreshnessPolicy}
use networth.Model.Observation.{Observation}
use networth.Model.Snapshot.{Snapshot}
use networth.Model.Alert.{Alert}

pub record AccountRow : Type 0 where
  pub id : ℕ
  pub lineage_id : ℕ
  pub item_id : Option ℕ
  pub plaid_account_id : Option String
  pub currency : String
  pub sign : ℤ
  pub freshness_policy : FreshnessPolicy
  pub reconciliation_state : ReconciliationState
  pub include_in_net_worth : Bool
  pub created_at : ℕ
  pub archived_at : Option ℕ
  pub superseded_by_account_id : Option ℕ
  pub superseded_at : Option ℕ
  pub last_fetch_at : Option ℕ
  pub last_source_as_of : Option ℕ

pub data RunKind : Type 0 where
  other_kind full_sync : RunKind

pub record SyncRun : Type 0 where
  pub id : String
  pub kind : RunKind
  pub started_at : ℕ
  pub finished_at : Option ℕ
  pub succeeded : Option Bool

-- A row of `full_sync_retry`.
pub record RetryRow : Type 0 where
  pub item_id : ℕ
  pub failures : ℕ
  pub next_attempt_at : ℕ

pub record Database : Type 0 where
  pub accounts : List AccountRow
  pub items : List ItemHealth
  pub observations : List Observation
  pub snapshots : List Snapshot
  pub alerts : List Alert
  pub runs : List SyncRun
  pub retries : List RetryRow

-- `except (IndexError, TypeError, ValueError): raise StoredDataError` round a row's conversion.
abbrev pub from_row {ℓ} : {A : Type ℓ} → Result A → Result A
from_row (ok a) = ok a
from_row (err _) = err stored_data

-- The rows of a query, converted one by one.
unfoldable pub convert {ℓ κ} : {A : Type ℓ} {B : Type κ} → (A → Result B) → List A → Result (List B)
convert f [] = ok []
convert f (x ∷ xs) = do y ← f x; ys ← convert f xs; ok (y ∷ ys)

-- The row of a query on a unique column.
abbrev pub find {ℓ} : {A : Type ℓ} → (A → Bool) → List A → Option A
find p [] = none
find p (x ∷ xs) = elim (p x) [ true ↦ some x | false ↦ find p xs ]

pub find-hit {ℓ} :
    {A : Type ℓ} (p : A → Bool) (x : A) (xs : List A) → p x ≡ true → find p (x ∷ xs) ≡ some x
find-hit p x xs h = rw (find, h) refl

pub find-miss {ℓ} :
    {A : Type ℓ} (p : A → Bool) (x : A) (xs : List A) → p x ≡ false → find p (x ∷ xs) ≡ find p xs
find-miss p x xs h = rw (find, h) refl

abbrev pub convert_optional {ℓ κ} :
    {A : Type ℓ} {B : Type κ} → (A → Result B) → Option A → Result (Option B)
convert_optional f none = ok none
convert_optional f (some x) = f x >>= λ y. ok (some y)
