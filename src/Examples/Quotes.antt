-- ===== src/Examples/Quotes.antt =====
-- The owner's ten shares at a quote of Wednesday's close, and a provider that crosses its keys.
use networth.Prelude.{
  true, ◌+◌, ◌*◌, keep, ◌≡◌, refl, false, none, some, Option, String, str_eq, List, [], ◌∷◌, ◌++◌,
  if◌then◌else◌,
}
use networth.Prelude.Int.{pos}
use networth.Prelude.Result.{Result, ok, err, manual_quote_input}
use networth.Model.Freshness.{manual_qty_live_price}
use networth.Calendar.Dates.{hour}
use networth.Model.Account.{confirmed, SnapshotAccount}
use networth.Model.Observation.{quote, Observation}
use networth.Store.Tables.{full_sync, Database}
use networth.Scheduling.{successes}
use networth.Dispatch.{Locks, completed_run}
use networth.Store.Accounts.{for_snapshot}
use networth.CycleAlerts.{equity_shares, ManualAsset}
use networth.Quotes.Holdings.{Quote}
use networth.Quotes.Worker.{ManualQuotePlan, collect_quotes}
use networth.Quotes.Cycle.{is_carried, carry_linked, run_quotes}
use networth.Quotes.Unseen.{run_quotes-successes}
use networth.Quotes.Carried.{AllCarried, carry_linked-AllCarried}
use networth.Examples.Data.{
  calendar, holdings_observation, household, account_row, thursday, noon, wednesday_close,
}

abbrev with_shares : Database
with_shares = record household {
  accounts =
      household.accounts
      ++ record (account_row 4 manual_qty_live_price confirmed) {
        item_id = none;
        plaid_account_id = none;
      }
        ∷ [];
}

abbrev shares : List ManualAsset
shares =
    record {
      account_id = 4;
      kind = equity_shares;
      valued_as_of = some thursday;
      symbol = some "ACME";
      shares = some (record { coefficient = pos 105; places = 1 });
    }
    ∷ []

abbrev acme : Quote
acme = record {
  symbol = "ACME";
  price = record { coefficient = pos 1003; places = 2 };
  currency = "USD";
  as_of = wednesday_close;
}

abbrev answered : List String → Result (String → Option Quote)
answered symbols = ok (λ s. if str_eq s "ACME" then some acme else none)

abbrev crossed : List String → Result (String → Option Quote)
crossed symbols = ok (λ _. some (record acme { symbol = "OTHER" }))

abbrev planned : ManualQuotePlan
planned = record {
  inputs =
      record {
        account = record {
          id = 4;
          item_id = none;
          currency = "USD";
          sign = pos 1;
          freshness_policy = manual_qty_live_price;
          reconciliation_state = confirmed;
        };
        holding = record {
          symbol = "ACME";
          shares = record { coefficient = pos 105; places = 1 };
          currency = "USD";
          set_on = thursday;
        };
      }
      ∷ [];
  observations =
      record {
        sync_run_id = "run-2";
        account_id = 4;
        observed_at = noon;
        figure = record {
          value_minor = pos 10532;
          currency = "USD";
          as_of = some wednesday_close;
          source_clock = "QUOTE_AS_OF";
        };
        source = quote;
        fetched_at = noon;
        is_carried_forward = false;
      }
      ∷ [];
}

crossed_keys :
    collect_quotes crossed shares with_shares false "run-2" thursday noon ≡ err manual_quote_input
unfolding collect_quotes networth.Model.Texts.is_nonempty networth.Store.Accounts.for_snapshot
    networth.Store.Tables.convert networth.Model.Account.new_snapshot_account
    networth.Model.Texts.is_currency networth.Model.Freshness.requires_item
    networth.Quotes.Holdings.new_holding networth.Quotes.Holdings.value_with
crossed_keys = refl

-- The brokerage is carried; the savings account is NEW and the house has no Item.
abbrev carried_row : Observation
carried_row = record {
  draft = record holdings_observation.draft {
    sync_run_id = "run-2";
    observed_at = noon + hour;
    is_carried_forward = true;
  };
  id = 8;
}

abbrev after_carrying : Database
after_carrying = record household { observations = household.observations ++ carried_row ∷ [] }

carrying : carry_linked "run-2" (noon + hour) household ≡ ok after_carrying
unfolding carry_linked for_snapshot networth.Store.Tables.convert
    networth.Model.Account.new_snapshot_account networth.Model.Texts.is_currency
    networth.Store.Observations.latest_for_account networth.Prelude.Sort.sort
    networth.Model.Figure.new_figure networth.Model.Texts.is_nonempty
    networth.Model.Observation.new_observation networth.Store.Observations.append_observation
carrying = refl

carry_linked-AllCarried_example :
    (accounts : List SnapshotAccount) × (os : List Observation) × (for_snapshot household.accounts
      ≡ ok accounts)
    × (after_carrying ≡ record household { observations = household.observations ++ os })
    × AllCarried "run-2" (noon + hour) household.observations (keep is_carried accounts) os
carry_linked-AllCarried_example =
    carry_linked-AllCarried "run-2" (noon + hour) household after_carrying carrying

abbrev never_busy : Locks
never_busy = record { at_begin = λ _. false; at_commit = λ _. false }

-- A full sync has succeeded before.
abbrev synced : Database
synced = record with_shares {
  runs =
      record {
        id = "run-1";
        kind = full_sync;
        started_at = thursday;
        finished_at = some (thursday + hour);
        succeeded = some true;
      }
      ∷ [];
}

ran :
    (run_quotes calendar answered shares "run-2" never_busy never_busy noon noon noon synced).0
    ≡ ok (completed_run "run-2" true false)
unfolding run_quotes networth.Scheduling.quote_refresh_due
    networth.Calendar.Market.latest_completed_close networth.Calendar.Market.session_close
    networth.Calendar.Market.is_closed networth.Calendar.Dates.weekday
    networth.Calendar.Holidays.regular_holidays networth.Calendar.Dates.ordinal
    networth.Calendar.Dates.year_of networth.Calendar.Market.close_time
    networth.Calendar.Holidays.regular_early_closes for_snapshot networth.Store.Tables.convert
    networth.Model.Account.new_snapshot_account networth.Model.Texts.is_currency
    networth.Store.Observations.latest_for_account collect_quotes networth.Model.Texts.is_nonempty
    networth.Model.Freshness.requires_item networth.Quotes.Holdings.new_holding
    networth.Quotes.Holdings.value_with networth.Money.to_minor_units
    networth.Model.Figure.new_figure networth.Model.Observation.new_observation_draft carry_linked
    networth.Prelude.Sort.sort networth.Model.Observation.new_observation
    networth.Store.Observations.append_observation networth.Dispatch.write_retried
    networth.Quotes.Cycle.begin_quotes networth.Quotes.Cycle.quotes_collected
    networth.Quotes.Cycle.finish_quotes networth.Quotes.Worker.persist_quotes
    networth.Snapshotter.run_snapshot networth.CycleAlerts.cycle_evaluate
    networth.Scheduling.is_quote_due networth.Store.Accounts.record_fetch
    networth.Store.Observations.for_sync_run networth.Snapshotter.add_accounts
    networth.Snapshotter.item_for networth.Store.Items.get_item networth.Model.Item.new_item_health
    networth.Snapshotter.contribution networth.Snapshotter.observation_for networth.Staleness.assess
    networth.Staleness.inside_expectation networth.Model.Freshness.new_assessment
    networth.Staleness.healthy_market_days_without_advance
    networth.Calendar.Market.completed_closes_after networth.Store.Observations.history_for_lineage
    networth.Manual.from_observations networth.Manual.current networth.Snapshotter.draft_of
    networth.Model.Figure.new_age networth.Snapshotter.add_contribution networth.Prelude.minimum
    networth.Model.Snapshot.new_counts networth.Model.Figure.figure_of
    networth.Model.Snapshot.new_snapshot_draft networth.Store.Snapshots.append_snapshot
    networth.Store.Items.all_items networth.Store.Accounts.for_alerts
    networth.Alerts.new_account_signal networth.Alerts.evaluate networth.Store.Alerts.open_alerts
    networth.Model.Alert.new_alert_draft networth.Store.Alerts.raise_alert
    networth.Model.Alert.new_alert
ran = refl

run_quotes-successes_example :
    successes
      (run_quotes calendar answered shares "run-2" never_busy never_busy noon noon noon
        synced).1.runs
    ≡ successes synced.runs
run_quotes-successes_example =
    run_quotes-successes calendar answered shares "run-2" never_busy never_busy noon noon noon
      synced
