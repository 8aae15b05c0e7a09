-- ===== src/Examples/Sync.antt =====
-- A full sync of the household: the brokerage's holdings cannot be fetched, so its last observation is
-- repeated, and the savings account has a new balance.
use mathlib.Core.List.{Perm}
use networth.Prelude.{ℕ, ◌+◌, ◌*◌, ◌≡◌, refl, true, false, none, some, List, [], ◌∷◌, length}
use networth.Prelude.Int.{pos}
use networth.Prelude.Result.{ok}
use networth.Calendar.Dates.{day, hour, weekday, ordinal, year_of}
use networth.Model.Observation.{plaid_balance, plaid_holdings, new_observation}
use networth.Model.Texts.{is_nonempty, is_currency}
use networth.Model.Item.{new_item_health}
use networth.Model.Figure.{new_figure}
use networth.Store.Items.{get_item}
use networth.Store.Observations.{latest_for_account}
use networth.Model.Account.{confirmed, new, LinkedAccount, new_linked_account}
use networth.Model.Freshness.{synced_holdings, synced_balance}
use networth.Store.Tables.{convert}
use networth.Calendar.Market.{session_close, is_closed, close_time}
use networth.Calendar.Holidays.{regular_holidays, regular_early_closes}
use networth.Store.Accounts.{syncable}
use networth.Sync.Records.{returned, raised, BalanceRecord, HoldingRecord, realtime, FullSyncPlan}
use networth.Money.{to_minor_units}
use networth.Sync.Clock.{holdings_clock}
use networth.Sync.Cycle.{SyncSetup, collect_sync}
use networth.Sync.Settled.{Settled}
use networth.Sync.Every.{collect_sync-Settled}
use networth.Sync.Oldest.{holdings_clock-IsOldest, IsOldest}
use networth.Examples.Data.{
  calendar, noon, wednesday_close, brokerage_item, household, holdings_observation,
}

abbrev savings_balance : BalanceRecord
savings_balance = record {
  account_id = "plaid";
  current = record { coefficient = pos 1234565; places = 3 };
  currency = "USD";
  last_updated_datetime = none;
}

abbrev pub setup : SyncSetup
setup = record {
  tokens = λ _. returned "token";
  client = record {
    fetch_realtime_balances = λ _. returned (savings_balance ∷ []);
    fetch_cached_balances = λ _. raised "PlaidCallError";
    fetch_holdings = λ _. raised "PlaidCallError";
  };
  balance_mode = realtime;
  calendar = calendar;
}

abbrev planned : FullSyncPlan
planned = record {
  attempted_count = 2;
  observations =
      record {
        sync_run_id = "run-2";
        account_id = 1;
        observed_at = noon;
        figure = holdings_observation.figure;
        source = plaid_holdings;
        fetched_at = holdings_observation.fetched_at;
        is_carried_forward = true;
      }
      ∷ record {
        sync_run_id = "run-2";
        account_id = 2;
        observed_at = noon;
        figure = record {
          value_minor = pos 123456;
          currency = "USD";
          as_of = some noon;
          source_clock = "BALANCE_REALTIME_FETCHED_AT";
        };
        source = plaid_balance;
        fetched_at = noon;
        is_carried_forward = false;
      }
      ∷ [];
  failures = record { account_id = 1; error_type = "PlaidCallError"; carried_forward = true } ∷ [];
  items =
      record { item_id = 1; attempted = true; failed = true }
      ∷ record { item_id = 2; attempted = true; failed = false }
      ∷ [];
}

collected : collect_sync setup household false "run-2" noon [] ≡ ok planned
unfolding collect_sync is_nonempty syncable convert new_linked_account is_currency get_item
    new_item_health latest_for_account new_figure new_observation to_minor_units
collected = refl

collect_sync-Settled_example :
    (targets order : List LinkedAccount) × (syncable household.accounts ≡ ok targets)
    × (planned.attempted_count ≡ length targets)
    × Perm order targets
    × Settled household.observations "run-2" noon order planned.observations planned.failures
collect_sync-Settled_example =
    collect_sync-Settled setup household false "run-2" noon [] planned collected

abbrev synced : List LinkedAccount
synced =
    record {
      id = 1;
      item_id = 1;
      plaid_account_id = "plaid";
      currency = "USD";
      freshness_policy = synced_holdings;
      reconciliation_state = confirmed;
    }
    ∷ record {
      id = 2;
      item_id = 2;
      plaid_account_id = "plaid";
      currency = "USD";
      freshness_policy = synced_balance;
      reconciliation_state = new;
    }
    ∷ []

-- A fund priced at the close, and a bond with only a price date, a week earlier.
abbrev fund : HoldingRecord
fund = record {
  account_id = "plaid";
  institution_value = record { coefficient = pos 100; places = 0 };
  currency = "USD";
  institution_price_datetime = some wednesday_close;
  institution_price_as_of = none;
}

abbrev bond : HoldingRecord
bond = record fund { institution_price_datetime = none; institution_price_as_of = some 739938 }

abbrev bond_close : ℕ
bond_close = 739938 * day + 21 * hour

dated_by_bond : (holdings_clock calendar (fund ∷ bond ∷ []) brokerage_item).0 ≡ some bond_close
unfolding holdings_clock session_close is_closed weekday regular_holidays ordinal year_of close_time
    regular_early_closes
dated_by_bond = refl

holdings_clock-IsOldest_example :
    (update : ℕ) × (brokerage_item.investments_last_successful_update ≡ some update)
    × IsOldest calendar (fund ∷ bond ∷ []) update bond_close
holdings_clock-IsOldest_example =
    holdings_clock-IsOldest calendar (fund ∷ bond ∷ []) brokerage_item bond_close dated_by_bond
