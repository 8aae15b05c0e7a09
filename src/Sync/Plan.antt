-- ===== src/Sync/Plan.antt =====
-- networth/sync.py: what a full sync plans for one Item: a fresh observation of each account, or the
-- last one carried forward, or none.
use networth.Prelude.{
  ℕ, true, false, not, ◌||◌, Option, none, some, String, str_eq, List, [], ◌∷◌, ◌++◌, if◌then◌else◌,
  keep, any,
}
use networth.Prelude.Result.{Result, ok, err, raised_outside, ◌>>=◌}
use networth.Calendar.Market.{Calendar}
use networth.Model.Item.{ItemHealth}
use networth.Model.Figure.{new_figure}
use networth.Model.Observation.{
  ObservationSource, plaid_holdings, plaid_balance, ObservationDraft, Observation,
  new_observation_draft,
}
use networth.Model.Account.{LinkedAccount}
use networth.Money.{to_minor_units}
use networth.Store.Observations.{latest_for_account}
use networth.Sync.Records.{
  BalanceRecord, HoldingRecord, InvestmentRecords, BalanceMode, realtime, cached, SyncFailure,
}
use networth.Sync.Clock.{holdings_clock}

-- The plans and the failures of some targets.
abbrev pub Planned : Type 0
Planned = List ObservationDraft × List SyncFailure

abbrev pub also : Planned → Planned → Planned
also (plans, failures) (plans', failures') = (plans ++ plans', failures ++ failures')

abbrev pub both : Result Planned → Result Planned → Result Planned
both first second = do p ← first; q ← second; ok (also p q)

-- The plan and the failure of one target, after the account's last observation was read.
unfoldable pub carried : String → ℕ → LinkedAccount → String → Option Observation → Result Planned
carried run at target error none =
    ok ([], record { account_id = target.id; error_type = error; carried_forward = false } ∷ [])
carried run at target error (some previous) = do
  draft ← new_observation_draft (record {
    sync_run_id = run;
    account_id = target.id;
    observed_at = at;
    figure = previous.figure;
    source = previous.source;
    fetched_at = previous.fetched_at;
    is_carried_forward = true;
  })
  ok (
    draft ∷ [],
    record { account_id = target.id; error_type = error; carried_forward = true } ∷ [],
  )

-- The check of a target against what the provider returned for it, and what a target that passed
-- becomes.
unfoldable pub account_error :
    LinkedAccount → List BalanceRecord → List HoldingRecord → Option String
account_error target [] holdings = some "ProviderAccountMissingError"
account_error target (total ∷ []) holdings =
    if not (str_eq total.currency target.currency)
      || any (λ (h : HoldingRecord). not (str_eq h.currency target.currency)) holdings
    then some "CurrencyMismatchError"
    else none
account_error target (_ ∷ _ ∷ _) holdings = some "DuplicateProviderAccountError"

unfoldable pub fresh_draft :
    String
    → ℕ
    → LinkedAccount
    → BalanceRecord
    → ObservationSource
    → Option ℕ × String
    → Result Planned
fresh_draft run at target total source (as_of, clock) = do
  cents ← to_minor_units total.current total.currency
  figure ← new_figure (record {
    value_minor = cents;
    currency = total.currency;
    as_of = as_of;
    source_clock = clock;
  })
  draft ← new_observation_draft (record {
    sync_run_id = run;
    account_id = target.id;
    observed_at = at;
    figure = figure;
    source = source;
    fetched_at = at;
    is_carried_forward = false;
  })
  ok (draft ∷ [], [])

-- The clock of a balance.
unfoldable pub balance_clock : BalanceMode → ℕ → BalanceRecord → Option ℕ × String
balance_clock cached at total = (none, "UNKNOWN")
balance_clock realtime at total = elim total.last_updated_datetime [
  | none ↦ (some at, "BALANCE_REALTIME_FETCHED_AT")
  | some t ↦ (some t, "BALANCE_LAST_UPDATED_DATETIME")
]

module _ (observations : List Observation) (run : String) (at : ℕ) where
  -- `_fallback`
  unfoldable pub fallback : LinkedAccount → String → Result Planned
  unfolding carried
  fallback target error = do
    previous ← latest_for_account observations target.id
    carried run at target error previous

  -- `_fallback_all`
  unfoldable pub fallback_all : List LinkedAccount → String → Result Planned
  unfolding fallback
  fallback_all [] error = ok ([], [])
  fallback_all (target ∷ targets) error =
      let rest = fallback_all targets error in both (fallback target error) rest

  -- One target: its error falls back, and a single matching record gives a fresh draft.
  abbrev pub plan_matched :
      LinkedAccount
      → ObservationSource
      → (BalanceRecord → Option ℕ × String)
      → List BalanceRecord
      → Option String
      → Result Planned
  plan_matched target source clock matches (some error) = fallback target error
  plan_matched target source clock [] none = err (raised_outside "IndexError")
  plan_matched target source clock (total ∷ _) none =
      fresh_draft run at target total source (clock total)

  -- `by_account.get(target.plaid_account_id, [])`
  abbrev pub totals_of : LinkedAccount → List BalanceRecord → List BalanceRecord
  totals_of target records =
      keep (λ (r : BalanceRecord). str_eq r.account_id target.plaid_account_id) records

  abbrev pub holdings_of : LinkedAccount → List HoldingRecord → List HoldingRecord
  holdings_of target records =
      keep (λ (r : HoldingRecord). str_eq r.account_id target.plaid_account_id) records

  abbrev pub plan_balance : BalanceMode → List BalanceRecord → LinkedAccount → Result Planned
  plan_balance mode records target =
      let matches = totals_of target records in
      plan_matched target plaid_balance (balance_clock mode at) matches
        (account_error target matches [])

  -- `_plan_balances`
  unfoldable pub plan_balances :
      BalanceMode → List BalanceRecord → List LinkedAccount → Result Planned
  unfolding fallback account_error fresh_draft balance_clock
  plan_balances mode records [] = ok ([], [])
  plan_balances mode records (target ∷ targets) =
      let rest = plan_balances mode records targets in both (plan_balance mode records target) rest

  abbrev pub plan_holding :
      Calendar → ItemHealth → InvestmentRecords → LinkedAccount → Result Planned
  plan_holding calendar item investments target =
      let matches = totals_of target investments.accounts in
      let holdings = holdings_of target investments.holdings in
      plan_matched target plaid_holdings (λ _. holdings_clock calendar holdings item) matches
        (account_error target matches holdings)

  -- `_plan_holdings`
  unfoldable pub plan_holdings :
      Calendar → ItemHealth → InvestmentRecords → List LinkedAccount → Result Planned
  unfolding fallback account_error fresh_draft holdings_clock
  plan_holdings calendar item investments [] = ok ([], [])
  plan_holdings calendar item investments (target ∷ targets) =
      let rest = plan_holdings calendar item investments targets in
      both (plan_holding calendar item investments target) rest
