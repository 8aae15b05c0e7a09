-- ===== src/Sync/Cycle.antt =====
-- networth/sync.py: the plan of one Item, and `collect`, `persist` and `run`.
use networth.Prelude.{
  ℕ, Bool, true, false, not, Option, none, some, String, List, [], ◌∷◌, ◌++◌, ◌==◌, if◌then◌else◌,
  keep, length, contains,
}
use networth.Prelude.Result.{Result, ok, ◌>>=◌, ◌>>◌, raise_if, no_transaction, invalid_observation}
use networth.Calendar.Market.{Calendar}
use networth.Model.Texts.{is_nonempty}
use networth.Model.Item.{ItemHealth}
use networth.Model.Observation.{ObservationDraft, Observation}
use networth.Model.Account.{LinkedAccount}
use networth.Model.Freshness.{FreshnessPolicy, synced_holdings, synced_balance}
use networth.Store.Tables.{Database}
use networth.Store.Items.{get_item}
use networth.Store.Accounts.{syncable, record_fetch}
use networth.Store.Observations.{append_observation}
use networth.Sync.Records.{
  Call, raised, returned, BalanceRecord, InvestmentRecords, SyncClient, BalanceMode, realtime,
  cached, SyncFailure, SyncItemOutcome, FullSyncPlan, FullSyncResult,
}
use networth.Sync.Plan.{Planned, both, also, fallback_all, plan_balances, plan_holdings}

abbrev pub is_balance : FreshnessPolicy → Bool
is_balance synced_balance = true
is_balance _ = false

abbrev pub is_holdings : FreshnessPolicy → Bool
is_holdings synced_holdings = true
is_holdings _ = false

-- The constructor's arguments: the token store, the client, and what the configuration fixes.
pub record SyncSetup : Type 0 where
  pub tokens : String → Call String
  pub client : SyncClient
  pub balance_mode : BalanceMode
  pub calendar : Calendar

abbrev pub fetch_balances : SyncSetup → String → Call (List BalanceRecord)
fetch_balances s token = elim s.balance_mode [
  | realtime ↦ s.client.fetch_realtime_balances token
  | cached ↦ s.client.fetch_cached_balances token
]

abbrev pub is_failed : List SyncFailure → Bool
is_failed [] = false
is_failed (_ ∷ _) = true

module _ (s : SyncSetup) (db : Database) (run : String) (at : ℕ) where
  abbrev pub balances_answered : List LinkedAccount → Call (List BalanceRecord) → Result Planned
  balances_answered targets (raised name) = fallback_all db.observations run at targets name
  balances_answered targets (returned records) =
      plan_balances db.observations run at s.balance_mode records targets

  -- The branch of the accounts that a balance dates; without one the client is not asked.
  unfoldable pub balances_planned : String → List LinkedAccount → Result Planned
  unfolding fallback_all plan_balances
  balances_planned token [] = ok ([], [])
  balances_planned token (t ∷ ts) = balances_answered (t ∷ ts) (fetch_balances s token)

  abbrev pub holdings_answered :
      ItemHealth → List LinkedAccount → Call InvestmentRecords → Result Planned
  holdings_answered item targets (raised name) = fallback_all db.observations run at targets name
  holdings_answered item targets (returned investments) =
      plan_holdings db.observations run at s.calendar item investments targets

  unfoldable pub holdings_planned : ItemHealth → String → List LinkedAccount → Result Planned
  unfolding fallback_all plan_holdings
  holdings_planned item token [] = ok ([], [])
  holdings_planned item token (t ∷ ts) =
      holdings_answered item (t ∷ ts) (s.client.fetch_holdings token)

  abbrev pub with_token : ItemHealth → List LinkedAccount → Call String → Result Planned
  with_token item targets (raised name) = fallback_all db.observations run at targets name
  with_token item targets (returned token) =
      both (balances_planned token (keep (λ t. is_balance t.freshness_policy) targets))
        (holdings_planned item token (keep (λ t. is_holdings t.freshness_policy) targets))

  abbrev pub with_item : List LinkedAccount → Option ItemHealth → Result Planned
  with_item targets none = fallback_all db.observations run at targets "ItemNotFoundError"
  with_item targets (some item) = with_token item targets (s.tokens item.secret_ref)

  -- `_plan_item`
  unfoldable pub plan_item : ℕ → List LinkedAccount → Result Planned
  unfolding fallback_all balances_planned holdings_planned
  plan_item item_id targets = do found ← get_item db.items item_id; with_item targets found

  -- One turn of the loop over the Items.
  abbrev pub item_turn : List ℕ → ℕ → List LinkedAccount → Result (Planned × SyncItemOutcome)
  item_turn deferred item_id targets =
      if contains item_id deferred
      then (do
        p ← fallback_all db.observations run at targets "RetryDeferred"
        ok (p, record { item_id = item_id; attempted = false; failed = false }))
      else (do
        p ← plan_item item_id targets
        ok (p, record { item_id = item_id; attempted = true; failed = is_failed p.1 }))

  unfoldable pub item_turns :
      List ℕ → List (ℕ × List LinkedAccount) → Result (Planned × List SyncItemOutcome)
  unfolding fallback_all plan_item
  item_turns deferred [] = ok (([], []), [])
  item_turns deferred ((item_id, targets) ∷ groups) =
      let rest = item_turns deferred groups in
      do
        (p, outcome) ← item_turn deferred item_id targets
        (q, outcomes) ← rest
        ok (also p q, outcome ∷ outcomes)

-- `by_item`, in the order of the first target of each Item.
abbrev pub add_to : LinkedAccount → List (ℕ × List LinkedAccount) → List (ℕ × List LinkedAccount)
add_to t [] = (t.item_id, t ∷ []) ∷ []
add_to t ((item_id, targets) ∷ groups) =
    let rest = add_to t groups in
    if t.item_id == item_id
    then (item_id, targets ++ t ∷ []) ∷ groups
    else (item_id, targets) ∷ rest

unfoldable pub grouped :
    List (ℕ × List LinkedAccount) → List LinkedAccount → List (ℕ × List LinkedAccount)
grouped groups [] = groups
grouped groups (t ∷ ts) = grouped (add_to t groups) ts

-- `collect`; the flag is the connection's `in_transaction`.
unfoldable pub collect_sync :
    SyncSetup → Database → Bool → String → ℕ → List ℕ → Result FullSyncPlan
unfolding grouped item_turns
collect_sync s db in_transaction run at deferred = do
  raise_if in_transaction no_transaction
  raise_if (not (is_nonempty run)) invalid_observation
  targets ← syncable db.accounts
  ((plans, failures), outcomes) ← item_turns s db run at deferred (grouped [] targets)
  ok (record {
    attempted_count = length targets;
    observations = plans;
    failures = failures;
    items = outcomes;
  })

-- The loop of `persist`: the observations that it stored, and the database after them.
unfoldable pub persist_drafts :
    Database → List ObservationDraft → Result (List Observation × Database)
unfolding append_observation record_fetch
persist_drafts db [] = ok ([], db)
persist_drafts db (d ∷ ds) = do
  (stored, rows) ← append_observation db.observations d
  let accounts' =
      if d.is_carried_forward
      then db.accounts
      else record_fetch stored.account_id stored.fetched_at stored.figure.as_of db.accounts
  (later, db') ← persist_drafts (record db { observations = rows; accounts = accounts' }) ds
  ok (stored ∷ later, db')

-- `persist`
unfoldable pub persist_sync : Database → FullSyncPlan → Result (FullSyncResult × Database)
unfolding persist_drafts
persist_sync db plan = do
  (stored, db') ← persist_drafts db plan.observations
  ok (
    record {
      attempted_count = plan.attempted_count;
      observations = stored;
      failures = plan.failures;
    },
    db',
  )

-- `run`
unfoldable pub run_sync :
    SyncSetup → Database → Bool → String → ℕ → Result (FullSyncResult × Database)
unfolding collect_sync persist_sync
run_sync s db in_transaction run at = do
  plan ← collect_sync s db in_transaction run at []
  persist_sync db plan
