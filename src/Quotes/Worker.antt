-- ===== src/Quotes/Worker.antt =====
-- networth/manual_quotes.py: `ManualQuoteWorker`.
use networth.Prelude.{
  ℕ, Bool, true, false, not, ◌&&◌, Option, none, some, String, str_eq, List, [], ◌∷◌, ltb, ◌==◌,
  if◌then◌else◌, any, length,
}
use networth.Prelude.Int.{◌==ℤ◌}
use networth.Prelude.Result.{
  Result, ok, err, ◌>>=◌, ◌>>◌, raise_if, manual_quote_input, no_transaction, invalid_observation,
}
use networth.Prelude.Sort.{sort}
use networth.Model.Texts.{is_nonempty, text_leb}
use networth.Model.Figure.{same_clock}
use networth.Model.Observation.{quote, ObservationDraft, new_observation_draft}
use networth.Model.Account.{ReconciliationState, new, confirmed, archived, SnapshotAccount}
use networth.Model.Freshness.{
  FreshnessPolicy, synced_holdings, synced_balance, manual_static, manual_qty_live_price,
}
use networth.Store.Tables.{Database, find, convert}
use networth.Store.Accounts.{for_snapshot, record_fetch}
use networth.Store.Observations.{append_observation}
use networth.CycleAlerts.{ManualAssetKind, real_property, equity_shares, ManualAsset}
use networth.Scheduling.{is_quoted}
use networth.Sync.Clock.{distinct}
use networth.Quotes.Holdings.{Quote, EquityHolding, new_holding, same_decimal, value_with}

-- `_Input`
pub record Input : Type 0 where
  pub account : SnapshotAccount
  pub holding : EquityHolding

-- `ManualQuotePlan`
pub record ManualQuotePlan : Type 0 where
  pub inputs : List Input
  pub observations : List ObservationDraft

-- `except (TypeError, ValueError, AttributeError): raise ManualQuoteInputError`
abbrev pub or_input_error {ℓ} : {A : Type ℓ} → Result A → Result A
or_input_error (ok a) = ok a
or_input_error (err e) = err manual_quote_input

abbrev pub present {ℓ} : {A : Type ℓ} → Option A → Result A
present none = err manual_quote_input
present (some a) = ok a

abbrev pub is_equity : ManualAssetKind → Bool
is_equity equity_shares = true
is_equity real_property = false

unfoldable pub input_of : ℕ → SnapshotAccount → Option ManualAsset → Result Input
input_of at account none = err manual_quote_input
input_of at account (some row) = do
  raise_if (not (is_equity row.kind)) manual_quote_input
  confirmed_on ← present row.valued_as_of
  symbol ← present row.symbol
  shares ← present row.shares
  holding ← or_input_error (
      new_holding (record {
        symbol = symbol;
        shares = shares;
        currency = account.currency;
        set_on = confirmed_on;
      }))
  raise_if (ltb at confirmed_on) manual_quote_input
  ok (record { account = account; holding = holding })

unfoldable pub inputs_of : List ManualAsset → ℕ → List SnapshotAccount → Result (List Input)
unfolding input_of
inputs_of assets at [] = ok []
inputs_of assets at (a ∷ accounts) =
    let rest = inputs_of assets at accounts in
    if is_quoted a.freshness_policy
    then (do
      input ← input_of at a (find (λ (m : ManualAsset). m.account_id == a.id) assets)
      inputs ← rest
      ok (input ∷ inputs))
    else rest

-- `_inputs`
unfoldable pub manual_inputs : List ManualAsset → Database → ℕ → Result (List Input)
unfolding inputs_of
manual_inputs assets db at = do accounts ← for_snapshot db.accounts; inputs_of assets at accounts

abbrev pub symbols_of : List Input → List String
symbols_of [] = []
symbols_of (i ∷ inputs) = i.holding.symbol ∷ symbols_of inputs

-- One turn of the loop of `collect`.
unfoldable pub quoted_draft : String → ℕ → (String → Option Quote) → Input → Result ObservationDraft
quoted_draft run fetched quotes i = do
  q ← present (quotes i.holding.symbol)
  figure ← or_input_error (value_with i.holding q)
  raise_if (ltb fetched q.as_of) manual_quote_input
  new_observation_draft (record {
    sync_run_id = run;
    account_id = i.account.id;
    observed_at = fetched;
    figure = figure;
    source = quote;
    fetched_at = fetched;
    is_carried_forward = false;
  })

-- The provider is asked for the distinct symbols in order, and only if there are any.
abbrev pub collect_inputs :
    (List String → Result (String → Option Quote))
    → String
    → ℕ
    → ℕ
    → List Input
    → Result ManualQuotePlan
collect_inputs get_quotes run at fetched [] = ok (record { inputs = []; observations = [] })
collect_inputs get_quotes run at fetched (i ∷ inputs) = do
  quotes ← get_quotes (sort text_leb (distinct (symbols_of (i ∷ inputs))))
  raise_if (ltb fetched at) manual_quote_input
  drafts ← convert (quoted_draft run fetched quotes) (i ∷ inputs)
  ok (record { inputs = i ∷ inputs; observations = drafts })

-- `collect`, whose clock reads `fetched` once the quotes are there
unfoldable pub collect_quotes :
    (List String → Result (String → Option Quote))
    → List ManualAsset
    → Database
    → Bool
    → String
    → ℕ
    → ℕ
    → Result ManualQuotePlan
unfolding manual_inputs quoted_draft
collect_quotes get_quotes assets db in_transaction run at fetched = do
  raise_if (not (is_nonempty run)) invalid_observation
  raise_if in_transaction no_transaction
  inputs ← manual_inputs assets db at
  collect_inputs get_quotes run at fetched inputs

abbrev pub same_policy : FreshnessPolicy → FreshnessPolicy → Bool
same_policy synced_holdings synced_holdings = true
same_policy synced_balance synced_balance = true
same_policy manual_static manual_static = true
same_policy manual_qty_live_price manual_qty_live_price = true
same_policy _ _ = false

abbrev pub same_reconciliation : ReconciliationState → ReconciliationState → Bool
same_reconciliation new new = true
same_reconciliation confirmed confirmed = true
same_reconciliation archived archived = true
same_reconciliation _ _ = false

-- `==` of two inputs, field by field
abbrev pub same_input : Input → Input → Bool
same_input i j =
    (i.account.id == j.account.id)
    && same_clock i.account.item_id j.account.item_id
    && str_eq i.account.currency j.account.currency
    && (i.account.sign ==ℤ j.account.sign)
    && same_policy i.account.freshness_policy j.account.freshness_policy
    && same_reconciliation i.account.reconciliation_state j.account.reconciliation_state
    && str_eq i.holding.symbol j.holding.symbol
    && same_decimal i.holding.shares j.holding.shares
    && str_eq i.holding.currency j.holding.currency
    && (i.holding.set_on == j.holding.set_on)

abbrev pub same_inputs : List Input → List Input → Bool
same_inputs [] [] = true
same_inputs [] (_ ∷ _) = false
same_inputs (_ ∷ _) [] = false
same_inputs (i ∷ is) (j ∷ js) = same_input i j && same_inputs is js

-- The loop of `persist`.
unfoldable pub persist_quotes_each : Database → List ObservationDraft → Result Database
persist_quotes_each db [] = ok db
persist_quotes_each db (d ∷ ds) = do
  (stored, rows) ← append_observation db.observations d
  persist_quotes_each
      (record db {
        observations = rows;
        accounts = record_fetch stored.account_id stored.fetched_at stored.figure.as_of db.accounts;
      })
      ds

-- `persist`
unfoldable pub persist_quotes :
    List ManualAsset → Database → Bool → ManualQuotePlan → ℕ → Result (ℕ × Database)
unfolding manual_inputs persist_quotes_each
persist_quotes assets db in_transaction plan at = do
  raise_if (not in_transaction) no_transaction
  raise_if (any (λ (d : ObservationDraft). ltb at d.observed_at) plan.observations)
      manual_quote_input
  inputs ← manual_inputs assets db at
  raise_if (not (same_inputs inputs plan.inputs)) manual_quote_input
  db' ← persist_quotes_each db plan.observations
  ok (length plan.observations, db')
