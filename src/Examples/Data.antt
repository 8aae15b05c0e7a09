-- ===== src/Examples/Data.antt =====
-- A small household: a linked brokerage, a savings account not yet reconciled, and a house that its
-- owner values by hand.
use networth.Prelude.{ℕ, ◌+◌, ◌*◌, false, true, none, some, [], ◌∷◌}
use networth.Prelude.Int.{pos}
use networth.Calendar.Dates.{hour, day}
use networth.Calendar.Zone.{standard_time}
use networth.Calendar.Market.{Calendar}
use networth.Model.Item.{ItemHealth, healthy, needs_reauth}
use networth.Model.Observation.{plaid_holdings, manual, Observation}
use networth.Model.Freshness.{FreshnessPolicy, synced_holdings, synced_balance, manual_static}
use networth.Model.Account.{ReconciliationState, new, confirmed}
use networth.Store.Tables.{AccountRow, Database}

abbrev pub calendar : Calendar
calendar = record { zone = standard_time; extra_holidays = []; extra_early_closes = [] }

-- Midnight UTC of Thanksgiving 2026, a Thursday: ordinal 739946.
abbrev pub thursday : ℕ
thursday = 739946 * day

abbrev pub noon : ℕ
noon = thursday + 12 * hour

-- The close of the Wednesday before.
abbrev pub wednesday_close : ℕ
wednesday_close = 739945 * day + 21 * hour

abbrev pub brokerage_item : ItemHealth
brokerage_item = record {
  id = 1;
  plaid_item_id = "item-1";
  secret_ref = "ref-1";
  status = healthy;
  status_since = thursday;
  last_polled_at = some thursday;
  investments_last_successful_update = some wednesday_close;
  last_error_code = none;
  last_error_detail = none;
}

abbrev pub savings_item : ItemHealth
savings_item = record brokerage_item {
  id = 2;
  status = needs_reauth;
  last_error_detail = some "sign in again";
}

abbrev pub account_row : ℕ → FreshnessPolicy → ReconciliationState → AccountRow
account_row id policy state = record {
  id = id;
  lineage_id = id;
  item_id = some id;
  plaid_account_id = some "plaid";
  currency = "USD";
  sign = pos 1;
  freshness_policy = policy;
  reconciliation_state = state;
  include_in_net_worth = true;
  created_at = 1;
  archived_at = none;
  superseded_by_account_id = none;
  superseded_at = none;
  last_fetch_at = none;
  last_source_as_of = none;
}

abbrev pub house : AccountRow
house = record (account_row 3 manual_static confirmed) { item_id = none; plaid_account_id = none }

abbrev pub holdings_observation : Observation
holdings_observation = record {
  draft = record {
    sync_run_id = "run-1";
    account_id = 1;
    observed_at = noon;
    figure = record {
      value_minor = pos 250000;
      currency = "USD";
      as_of = some wednesday_close;
      source_clock = "INVESTMENTS_UPDATE";
    };
    source = plaid_holdings;
    fetched_at = noon;
    is_carried_forward = false;
  };
  id = 7;
}

abbrev pub valuation_observation : Observation
valuation_observation = record {
  draft = record {
    sync_run_id = "run-0";
    account_id = 3;
    observed_at = 739000 * day;
    figure = record {
      value_minor = pos 900000;
      currency = "USD";
      as_of = some (738000 * day);
      source_clock = "MANUAL_VALUED_AS_OF";
    };
    source = manual;
    fetched_at = 739000 * day;
    is_carried_forward = false;
  };
  id = 5;
}

abbrev pub household : Database
household = record {
  accounts =
      account_row 1 synced_holdings confirmed ∷ account_row 2 synced_balance new ∷ house ∷ [];
  items = brokerage_item ∷ savings_item ∷ [];
  observations = valuation_observation ∷ holdings_observation ∷ [];
  snapshots = [];
  alerts = [];
  runs = [];
  retries = [];
}
