-- ===== src/Quotes/Cycle.antt =====
-- networth/quote_cycle.py: `QuoteCycleDispatcher`.
use networth.Prelude.{
  ℕ, Bool, true, false, not, ◌&&◌, ◌||◌, Option, none, some, String, str_eq, List, [], ◌∷◌, ◌++◌,
  ltb, if◌then◌else◌, any,
}
use networth.Prelude.Result.{Result, ok, err, ◌>>=◌, ◌>>◌, raise_if, snapshot_input, raised_outside}
use networth.Calendar.Market.{Calendar}
use networth.Model.Observation.{ObservationDraft, Observation, new_observation_draft}
use networth.Model.Freshness.{requires_item}
use networth.Model.Account.{SnapshotAccount, is_new}
use networth.Store.Tables.{other_kind, SyncRun, Database}
use networth.Store.Accounts.{for_snapshot}
use networth.Store.Observations.{latest_for_account, append_observation}
use networth.CycleAlerts.{ManualAsset, cycle_evaluate}
use networth.Snapshotter.{run_snapshot}
use networth.Scheduling.{is_after_clock, quote_refresh_due, is_quote_due}
use networth.Dispatch.{
  Locks, write_retried, finish_runs, DispatchResult, not_due, completed_run, or_unchanged,
}
use networth.Quotes.Holdings.{Quote}
use networth.Quotes.Worker.{ManualQuotePlan, collect_quotes, persist_quotes}

-- The account's linked value is carried: it is synced and not NEW.
abbrev pub is_carried : SnapshotAccount → Bool
is_carried a = requires_item a.freshness_policy && not (is_new a.reconciliation_state)

abbrev pub carried_draft : String → ℕ → Observation → Result ObservationDraft
carried_draft run at previous =
    new_observation_draft
      (record previous.draft { sync_run_id = run; observed_at = at; is_carried_forward = true })

abbrev pub carry_previous : String → ℕ → Database → Option Observation → Result Database
carry_previous run at db none = err snapshot_input
carry_previous run at db (some previous) = do
  raise_if
      (ltb at previous.observed_at
        || ltb at previous.fetched_at
        || is_after_clock at previous.figure.as_of)
      snapshot_input
  draft ← carried_draft run at previous
  (_, rows) ← append_observation db.observations draft
  ok (record db { observations = rows })

-- One turn of the loop of `_carry_linked`.
unfoldable pub carry_one : String → ℕ → Database → SnapshotAccount → Result Database
unfolding requires_item
carry_one run at db account =
    if is_carried account
    then (do
      previous ← latest_for_account db.observations account.id
      carry_previous run at db previous)
    else ok db

unfoldable pub carry_each : String → ℕ → Database → List SnapshotAccount → Result Database
unfolding carry_one
carry_each run at db [] = ok db
carry_each run at db (account ∷ accounts) = do
  db' ← carry_one run at db account
  carry_each run at db' accounts

-- `_carry_linked`
unfoldable pub carry_linked : String → ℕ → Database → Result Database
unfolding carry_each
carry_linked run at db = do accounts ← for_snapshot db.accounts; carry_each run at db accounts

-- `begin` of the quote cycle
unfoldable pub begin_quotes : String → ℕ → Database → Result Database
begin_quotes run started db =
    if any (λ (r : SyncRun). str_eq r.id run) db.runs
    then err (raised_outside "IntegrityError")
    else ok (record db {
      runs =
          db.runs
          ++ record {
            id = run;
            kind = other_kind;
            started_at = started;
            finished_at = none;
            succeeded = none;
          }
            ∷ [];
    })

module _ (c : Calendar) (get_quotes : List String → Result (String → Option Quote))
    (assets : List ManualAsset) (run : String) where
  -- `finish`
  unfoldable pub finish_quotes : ManualQuotePlan → ℕ → Database → Result Database
  unfolding carry_linked persist_quotes
  finish_quotes plan finished db = do
    (_, priced) ← persist_quotes assets db true plan finished
    linked ← carry_linked run finished priced
    (_, built) ←
        run_snapshot c (record linked { runs = finish_runs run finished true linked.runs }) run
          finished
    evaluation ← cycle_evaluate c assets true built finished
    ok evaluation.database

  -- From the collection on; `fetched` and `finished` are the later clock readings.
  unfoldable pub quotes_collected : Locks → ℕ → ℕ → ℕ → Database → Result Database
  unfolding finish_quotes collect_quotes write_retried
  quotes_collected locks started fetched finished db = do
    plan ← collect_quotes get_quotes assets db false run started fetched
    raise_if (ltb finished started) (raised_outside "ValueError")
    write_retried locks (finish_quotes plan finished db)

  abbrev pub quotes_begun :
      Locks → ℕ → ℕ → ℕ → Database → Result Database → Result DispatchResult × Database
  quotes_begun locks started fetched finished db (err e) = (err e, db)
  quotes_begun locks started fetched finished db (ok begun) = or_unchanged begun (do
    db' ← quotes_collected locks started fetched finished begun
    ok (completed_run run true false, db'))

  abbrev pub quotes_admitted :
      Locks → Locks → ℕ → ℕ → ℕ → Database → Result Bool → Result DispatchResult × Database
  quotes_admitted begin_locks finish_locks started fetched finished db (err e) = (err e, db)
  quotes_admitted begin_locks finish_locks started fetched finished db (ok false) = (ok not_due, db)
  quotes_admitted begin_locks finish_locks started fetched finished db (ok true) =
      quotes_begun finish_locks started fetched finished db
        (write_retried begin_locks (begin_quotes run started db))

  -- `QuoteCycleDispatcher._run_locked`
  unfoldable pub run_quotes :
      Locks → Locks → ℕ → ℕ → ℕ → Database → Result DispatchResult × Database
  unfolding quotes_collected begin_quotes write_retried
  run_quotes begin_locks finish_locks started fetched finished db =
      quotes_admitted begin_locks finish_locks started fetched finished db
        (do due ← quote_refresh_due c db false started; ok (is_quote_due due))
