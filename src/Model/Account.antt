-- ===== src/Model/Account.antt =====
-- networth/model/account.py: the accounts that a full sync and a snapshot read.
use networth.Prelude.{ℕ, Bool, true, false, not, ◌||◌, Option, none, some, String, ltb}
use networth.Prelude.Int.{ℤ, pos, negsuc, ◌==ℤ◌}
use networth.Prelude.Result.{Result, ok, ◌>>◌, raise_if, invalid_account}
use networth.Model.Texts.{is_nonempty, is_currency}
use networth.Model.Item.{is_some}
use networth.Model.Figure.{same}
use networth.Model.Freshness.{FreshnessPolicy, requires_item}

pub data ReconciliationState : Type 0 where
  new confirmed archived : ReconciliationState

abbrev pub is_new : ReconciliationState → Bool
is_new new = true
is_new _ = false

abbrev pub is_archived : ReconciliationState → Bool
is_archived archived = true
is_archived _ = false

abbrev pub is_confirmed : ReconciliationState → Bool
is_confirmed confirmed = true
is_confirmed _ = false

pub record LinkedAccount : Type 0 where
  pub id : ℕ
  pub item_id : ℕ
  pub plaid_account_id : String
  pub currency : String
  pub freshness_policy : FreshnessPolicy
  pub reconciliation_state : ReconciliationState

-- `LinkedAccount.__post_init__`
unfoldable pub new_linked_account : LinkedAccount → Result LinkedAccount
new_linked_account a = do
  raise_if (not (ltb 0 a.id)) invalid_account
  raise_if (not (ltb 0 a.item_id)) invalid_account
  raise_if (not (is_nonempty a.plaid_account_id)) invalid_account
  raise_if (not (is_currency a.currency)) invalid_account
  raise_if (not (requires_item a.freshness_policy)) invalid_account
  ok a

pub record SnapshotAccount : Type 0 where
  pub id : ℕ
  pub item_id : Option ℕ
  pub currency : String
  pub sign : ℤ
  pub freshness_policy : FreshnessPolicy
  pub reconciliation_state : ReconciliationState

abbrev positive_or_absent : Option ℕ → Bool
positive_or_absent none = true
positive_or_absent (some n) = ltb 0 n

-- `SnapshotAccount.__post_init__`
unfoldable pub new_snapshot_account : SnapshotAccount → Result SnapshotAccount
new_snapshot_account a = do
  raise_if (not (ltb 0 a.id)) invalid_account
  raise_if (not (positive_or_absent a.item_id)) invalid_account
  raise_if (not (is_currency a.currency)) invalid_account
  raise_if (not ((a.sign ==ℤ negsuc 0) || (a.sign ==ℤ pos 1))) invalid_account
  raise_if (not (same (requires_item a.freshness_policy) (is_some a.item_id))) invalid_account
  raise_if (is_archived a.reconciliation_state) invalid_account
  ok a
