-- ===== src/Sync/Records.antt =====
-- networth/plaid/client.py and networth/sync.py: what the client answers, and the values that a full
-- sync passes on.
use networth.Prelude.{ℕ, Bool, not, Option, String, List, count}
use networth.Prelude.Result.{Result, ok, ◌>>◌, raise_if, invalid_record}
use networth.Model.Texts.{is_nonempty, is_currency}
use networth.Model.Observation.{ObservationDraft, Observation}
use networth.Money.{Decimal}

-- A call of code outside the repository: it raised an exception of the named type, or it returned.
pub data Call {ℓ} (R : Type ℓ) : Type ℓ where
  raised : String → Call R
  returned : R → Call R

pub record BalanceRecord : Type 0 where
  pub account_id : String
  pub current : Decimal
  pub currency : String
  pub last_updated_datetime : Option ℕ

-- `BalanceRecord.__post_init__`
unfoldable pub new_balance_record : BalanceRecord → Result BalanceRecord
new_balance_record r = do
  raise_if (not (is_nonempty r.account_id)) invalid_record
  raise_if (not (is_currency r.currency)) invalid_record
  ok r

pub record HoldingRecord : Type 0 where
  pub account_id : String
  pub institution_value : Decimal
  pub currency : String
  pub institution_price_datetime : Option ℕ
  pub institution_price_as_of : Option ℕ

-- `HoldingRecord.__post_init__`
unfoldable pub new_holding_record : HoldingRecord → Result HoldingRecord
new_holding_record r = do
  raise_if (not (is_nonempty r.account_id)) invalid_record
  raise_if (not (is_currency r.currency)) invalid_record
  ok r

pub record InvestmentRecords : Type 0 where
  pub accounts : List BalanceRecord
  pub holdings : List HoldingRecord

-- `_SyncClient`
pub record SyncClient : Type 0 where
  pub fetch_realtime_balances : String → Call (List BalanceRecord)
  pub fetch_cached_balances : String → Call (List BalanceRecord)
  pub fetch_holdings : String → Call InvestmentRecords

pub data BalanceMode : Type 0 where
  realtime cached : BalanceMode

pub record SyncFailure : Type 0 where
  pub account_id : ℕ
  pub error_type : String
  pub carried_forward : Bool

pub record SyncItemOutcome : Type 0 where
  pub item_id : ℕ
  pub attempted : Bool
  pub failed : Bool

pub record FullSyncPlan : Type 0 where
  pub attempted_count : ℕ
  pub observations : List ObservationDraft
  pub failures : List SyncFailure
  pub items : List SyncItemOutcome

pub record FullSyncResult : Type 0 where
  pub attempted_count : ℕ
  pub observations : List Observation
  pub failures : List SyncFailure

unfoldable pub carried_forward_count : FullSyncResult → ℕ
carried_forward_count r = count (λ (f : SyncFailure). f.carried_forward) r.failures

unfoldable pub missing_count : FullSyncResult → ℕ
missing_count r = count (λ (f : SyncFailure). not f.carried_forward) r.failures
