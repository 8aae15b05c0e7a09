-- ===== src/Examples/Totals.antt =====
-- The household's snapshot.
use networth.Prelude.{ℕ, ◌*◌, ◌≤◌, ◌≡◌, refl, false, none, some, List, [], ◌∷◌, In, All, minimum}
use networth.Prelude.Int.{ℤ, pos, ◌+ℤ◌, ◌-ℤ◌}
use networth.Prelude.Result.{ok}
use networth.Prelude.Sort.{sort}
use networth.Calendar.Dates.{day, ordinal, weekday, year_of}
use networth.Calendar.Holidays.{regular_holidays, regular_early_closes}
use networth.Calendar.Market.{
  latest_completed_close, completed_closes_after, session_close, is_closed, close_time,
}
use networth.Model.Texts.{is_nonempty, is_currency}
use networth.Model.Figure.{SourcedFigure, known, new_figure, new_age, figure_of, source_clock_of}
use networth.Model.Observation.{new_observation}
use networth.Manual.{from_observations, current, key_before}
use networth.Staleness.{assess, inside_expectation, healthy_market_days_without_advance}
use networth.Store.Tables.{convert}
use networth.Store.Accounts.{for_snapshot}
use networth.Store.Items.{get_item}
use networth.Store.Observations.{for_sync_run, history_for_lineage}
use networth.Model.Item.{healthy, new_item_health, owner_actionable}
use networth.Model.Freshness.{
  FreshnessAssessment, FreshnessPolicy, fresh, static, new_assessment, requires_item,
  synced_holdings, synced_balance, manual_static,
}
use networth.Model.Account.{
  SnapshotAccount, ReconciliationState, confirmed, new, new_snapshot_account,
}
use networth.Model.Snapshot.{SnapshotDraft, new_counts, new_snapshot_draft}
use networth.Snapshotter.{
  item_for, contribution, observation_for, add_accounts, add_contribution, asks_owner, age_from,
  draft_of, compute,
}
use networth.Snapshotter.Entries.{Entry, entry_of}
use networth.Snapshotter.Sums.{count, clocks, is_unknown_entry}
use networth.Snapshotter.Honest.{EntriesOf, Describes, compute_total, compute-Describes}
use networth.Snapshotter.Age.{compute-as_of}
use networth.Examples.Data.{
  calendar, noon, wednesday_close, brokerage_item, savings_item, holdings_observation,
  valuation_observation, household,
}

abbrev account : ℕ → FreshnessPolicy → ReconciliationState → SnapshotAccount
account id policy state = record {
  id = id;
  item_id = some id;
  currency = "USD";
  sign = pos 1;
  freshness_policy = policy;
  reconciliation_state = state;
}

abbrev fresh_holdings : FreshnessAssessment
fresh_holdings = record {
  state = fresh;
  source_as_of = some wednesday_close;
  market_days_without_advance = 0;
  is_carried_forward = false;
  item_state = some healthy;
}

abbrev valued_house : FreshnessAssessment
valued_house = record {
  state = static;
  source_as_of = some (738000 * day);
  market_days_without_advance = 0;
  is_carried_forward = false;
  item_state = none;
}

abbrev entries : List Entry
entries =
    record {
      account = account 1 synced_holdings confirmed;
      item = some brokerage_item;
      read = some (holdings_observation, fresh_holdings);
    }
    ∷ record { account = account 2 synced_balance new; item = some savings_item; read = none }
    ∷ record {
      account = record (account 3 manual_static confirmed) { item_id = none };
      item = none;
      read = some (valuation_observation, valued_house);
    }
    ∷ []

household-EntriesOf : EntriesOf calendar household "run-1" noon entries
unfolding for_snapshot convert new_snapshot_account is_currency requires_item for_sync_run sort
    new_figure is_nonempty new_observation entry_of item_for new_item_health contribution
    observation_for history_for_lineage from_observations current key_before get_item assess
    inside_expectation healthy_market_days_without_advance new_assessment latest_completed_close
    completed_closes_after session_close is_closed weekday regular_holidays ordinal year_of
    close_time regular_early_closes
household-EntriesOf = record {
  accounts =
      account 1 synced_holdings confirmed
      ∷ account 2 synced_balance new
      ∷ record (account 3 manual_static confirmed) { item_id = none }
      ∷ [];
  run_observations = holdings_observation ∷ [];
  active_accounts = refl;
  observed = refl;
  entries = refl;
}

compute_total_example :
    (d : SnapshotDraft) × (compute calendar household "run-1" noon ≡ ok d) × Describes entries d
unfolding is_nonempty
compute_total_example =
    compute_total calendar household "run-1" noon entries refl household-EntriesOf

abbrev dated : ℤ → SourcedFigure
dated v = record {
  value_minor = v;
  currency = "USD";
  as_of = some wednesday_close;
  source_clock = "OLDEST_CONTRIBUTING_SOURCE_AS_OF";
}

-- The house counts in the total and does not date it; the savings account is only counted.
abbrev draft : SnapshotDraft
draft = record {
  sync_run_id = "run-1";
  taken_at = noon;
  net_worth = dated (pos 1150000);
  assets = dated (pos 1150000);
  liabilities = dated (pos 0);
  counts = record {
    account_count = 3;
    stale_account_count = 0;
    unknown_freshness_account_count = 0;
    static_account_count = 1;
    reauth_account_count = 1;
    unreconciled_account_count = 1;
  };
  is_complete = false;
  age = record {
    state = known;
    as_of = some wednesday_close;
    oldest_known_source_as_of = some wednesday_close;
  };
}

pub household_draft : compute calendar household "run-1" noon ≡ ok draft
unfolding for_snapshot convert new_snapshot_account is_currency requires_item for_sync_run sort
    new_figure is_nonempty new_observation item_for new_item_health contribution observation_for
    history_for_lineage from_observations current key_before get_item assess inside_expectation
    healthy_market_days_without_advance new_assessment latest_completed_close completed_closes_after
    session_close is_closed weekday regular_holidays ordinal year_of close_time regular_early_closes
    compute add_accounts add_contribution asks_owner owner_actionable draft_of age_from minimum
    new_age new_counts figure_of source_clock_of new_snapshot_draft ◌+ℤ◌ ◌-ℤ◌
household_draft = refl

compute-Describes_example :
    (es : List Entry) × EntriesOf calendar household "run-1" noon es × Describes es draft
compute-Describes_example = compute-Describes calendar household "run-1" noon draft household_draft

compute-as_of_example :
    (es : List Entry) × EntriesOf calendar household "run-1" noon es
    × (count is_unknown_entry es ≡ 0)
    × In wednesday_close (clocks es)
    × All (λ clock. wednesday_close ≤ clock) (clocks es)
compute-as_of_example =
    compute-as_of calendar household "run-1" noon draft wednesday_close household_draft refl
