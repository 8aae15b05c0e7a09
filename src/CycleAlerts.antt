-- ===== src/CycleAlerts.antt =====
-- networth/cycle_alerts.py: `CycleAlertEvaluator`, which reads the signals of one cycle from the store
-- and hands them to the alert evaluator.
pub mod Signals
use networth.Prelude.{
  ℕ, Bool, true, false, not, ◌&&◌, ◌||◌, Option, none, some, String, List, [], ◌∷◌, ltb, ◌==◌, any,
  if◌then◌else◌,
}
use networth.Prelude.Result.{
  Result, ok, err, ◌>>=◌, ◌>>◌, raise_if, Error, cycle_alert_input, no_transaction, not_a_revision,
}
use networth.Calendar.Market.{Calendar}
use networth.Money.{Decimal}
use networth.Model.Item.{ItemHealth}
use networth.Model.Observation.{Observation}
use networth.Model.Freshness.{FreshnessAssessment}
use networth.Model.Account.{SnapshotAccount, is_new}
use networth.Manual.{Revision, PropertyRevisionLog, from_observations, current}
use networth.Staleness.{assess, is_manual_static}
use networth.Store.Tables.{Database, find}
use networth.Store.Items.{all_items}
use networth.Store.Accounts.{for_alerts}
use networth.Store.Observations.{latest_for_account, history_for_lineage}
use networth.Alerts.{
  AccountSignal, new_account_signal, ShareCountObservation, Evaluation, evaluate, is_after,
}

-- A row of `manual_asset`. The clock is absent where its text is no UTC time, the symbol where its text
-- has no normalized ticker, and the share count where its text is no finite decimal.
pub data ManualAssetKind : Type 0 where
  real_property equity_shares : ManualAssetKind

pub record ManualAsset : Type 0 where
  pub account_id : ℕ
  pub kind : ManualAssetKind
  pub valued_as_of : Option ℕ
  pub symbol : Option String
  pub shares : Option Decimal

-- The clocks of an Item that are after `at`.
abbrev pub in_future : ℕ → ItemHealth → Bool
in_future at i = ltb at i.status_since || is_after i.last_polled_at at

-- `except NotARevisionError: raise CycleAlertInputError`
abbrev pub or_cycle_error : Result PropertyRevisionLog → Result PropertyRevisionLog
or_cycle_error (ok log) = ok log
or_cycle_error (err not_a_revision) = err cycle_alert_input
or_cycle_error (err e) = err e

abbrev pub observation_of : List Observation → Option Revision → Option Observation
observation_of history none = none
observation_of history (some r) = find (λ (o : Observation). o.id == r.sequence) history

-- `_observation`
unfoldable pub cycle_observation : Database → ℕ → SnapshotAccount → Result (Option Observation)
cycle_observation db at account =
    if not (is_manual_static account.freshness_policy)
    then latest_for_account db.observations account.id
    else (do
      history ← history_for_lineage db.accounts db.observations account.id
      log ← or_cycle_error (from_observations history)
      ok (observation_of history (current log at)))

abbrev pub share_count_of : Option ManualAsset → Result ShareCountObservation
share_count_of none = ok (record { confirmed_on = none })
share_count_of (some asset) = elim asset.kind [
  | real_property ↦ ok (record { confirmed_on = none })
  | equity_shares ↦ elim asset.valued_as_of [
    | none ↦ err cycle_alert_input
    | some clock ↦ ok (record { confirmed_on = some clock })
  ]
]

-- `_share_count`
unfoldable pub share_count : List ManualAsset → ℕ → Result ShareCountObservation
share_count assets account_id =
    share_count_of (find (λ (a : ManualAsset). a.account_id == account_id) assets)

abbrev pub or_missing_item : Option ItemHealth → Result (Option ItemHealth)
or_missing_item none = err cycle_alert_input
or_missing_item (some i) = ok (some i)

-- `by_id.get(account.item_id)`, which must be there where the account names one
abbrev pub cycle_item : List ItemHealth → Option ℕ → Result (Option ItemHealth)
cycle_item items none = ok none
cycle_item items (some item_id) = or_missing_item (find (λ i. i.id == item_id) items)

-- The freshness of an account that has an observation.
unfoldable pub cycle_freshness :
    Calendar
    → ℕ
    → SnapshotAccount
    → Option ItemHealth
    → Option Observation
    → Result (Option FreshnessAssessment)
cycle_freshness c at account item none = ok none
cycle_freshness c at account item (some o) = do
  raise_if (ltb at o.observed_at || ltb at o.fetched_at) cycle_alert_input
  a ← assess c o.draft account.freshness_policy item at
  ok (some a)

-- The observation that an account's freshness is read from.
abbrev pub counted_observation : Database → ℕ → SnapshotAccount → Result (Option Observation)
counted_observation db at account =
    if is_new account.reconciliation_state then ok none else cycle_observation db at account

-- One round of the loop of `evaluate`.
unfoldable pub cycle_signal :
    Calendar
    → List ManualAsset
    → Database
    → List ItemHealth
    → ℕ
    → SnapshotAccount
    → Result AccountSignal
unfolding cycle_freshness share_count cycle_observation
cycle_signal c assets db items at account = do
  item ← cycle_item items account.item_id
  o ← counted_observation db at account
  freshness ← cycle_freshness c at account item o
  count ← share_count assets account.id
  new_account_signal (record {
    account_id = account.id;
    is_pending_reconciliation = is_new account.reconciliation_state;
    freshness = freshness;
    share_count = some count;
  })

unfoldable pub cycle_signals :
    Calendar
    → List ManualAsset
    → Database
    → List ItemHealth
    → ℕ
    → List SnapshotAccount
    → Result (List AccountSignal)
unfolding cycle_signal
cycle_signals c assets db items at [] = ok []
cycle_signals c assets db items at (account ∷ rest) = do
  s ← cycle_signal c assets db items at account
  more ← cycle_signals c assets db items at rest
  ok (s ∷ more)

-- `CycleAlertEvaluator.evaluate`
unfoldable pub cycle_evaluate :
    Calendar → List ManualAsset → Bool → Database → ℕ → Result Evaluation
unfolding cycle_signals
cycle_evaluate c assets in_transaction db at = do
  raise_if (not in_transaction) no_transaction
  items ← all_items db.items
  raise_if (any (in_future at) items) cycle_alert_input
  accounts ← for_alerts db.accounts
  signals ← cycle_signals c assets db items at accounts
  evaluate at items signals db
