-- ===== src/FullCycle.antt =====
-- networth/full_cycle.py: `FullCycleDispatcher`, which commits a full run's observations, its success, its
-- snapshot and its alerts in one transaction.
use networth.Prelude.{ℕ, Bool, true, false, Option, none, some, String, List, ltb, if◌then◌else◌}
use networth.Prelude.Result.{Result, ok, err, ◌>>=◌, ◌>>◌, raise_if, raised_outside}
use networth.Calendar.Market.{Calendar}
use networth.Store.Tables.{Database}
use networth.CycleAlerts.{ManualAsset, cycle_evaluate}
use networth.Snapshotter.{run_snapshot}
use networth.Sync.Records.{FullSyncPlan}
use networth.Sync.Cycle.{SyncSetup, is_failed}
use networth.Dispatch.{
  Locks, write_retried, finish_run, DispatchResult, completed_run, or_unchanged, run_completing,
}
use networth.Quotes.Holdings.{Quote}
use networth.Quotes.Worker.{ManualQuotePlan, collect_quotes, persist_quotes}

module _ (c : Calendar) (get_quotes : List String → Result (String → Option Quote))
    (assets : List ManualAsset) (run : String) where
  -- Manual prices are collected for a plan without failures only.
  unfoldable pub manual_plan : FullSyncPlan → ℕ → ℕ → Database → Result (Option ManualQuotePlan)
  unfolding collect_quotes
  manual_plan plan started fetched db = if is_failed plan.failures then ok none else (do
    manual ← collect_quotes get_quotes assets db false run started fetched
    ok (some manual))

  abbrev pub persist_manual : Option ManualQuotePlan → ℕ → Database → Result Database
  persist_manual none finished db = ok db
  persist_manual (some manual) finished db = do
    (_, priced) ← persist_quotes assets db true manual finished
    ok priced

  abbrev pub snapshot_if : Bool → ℕ → Database → Result Database
  snapshot_if false finished db = ok db
  snapshot_if true finished db = do (_, built) ← run_snapshot c db run finished; ok built

  -- `finish`
  unfoldable pub finish_cycle :
      FullSyncPlan → Option ManualQuotePlan → ℕ → Database → Result (Bool × Database)
  unfolding persist_quotes
  finish_cycle plan manual finished db = do
    (succeeded, stored) ← finish_run run plan finished db
    priced ← persist_manual manual finished stored
    built ← snapshot_if succeeded finished priced
    evaluation ← cycle_evaluate c assets true built finished
    ok (succeeded, evaluation.database)

  -- `_complete`; `fetched` is the clock reading of the quote worker
  unfoldable pub complete_cycle :
      Locks → ℕ → ℕ → ℕ → FullSyncPlan → Database → Result (Bool × Database)
  unfolding manual_plan finish_cycle
  complete_cycle locks started fetched finished plan db = do
    manual ← manual_plan plan started fetched db
    raise_if (ltb finished started) (raised_outside "ValueError")
    write_retried locks (finish_cycle plan manual finished db)

  -- An activation that completed no run still reassesses the alerts, at `at`.
  abbrev pub then_alerts :
      Locks → ℕ → Result DispatchResult × Database → Result DispatchResult × Database
  then_alerts locks at (err e, db) = (err e, db)
  then_alerts locks at (ok (completed_run run succeeded state_error), db) =
      (ok (completed_run run succeeded state_error), db)
  then_alerts locks at (ok result, db) = or_unchanged db (do
    evaluation ← write_retried locks (cycle_evaluate c assets true db at)
    ok (result, evaluation.database))

  -- `_run_locked`
  unfoldable pub run_cycle :
      SyncSetup
      → Locks
      → Locks
      → Locks
      → ℕ
      → ℕ
      → ℕ
      → ℕ
      → Database
      → Result DispatchResult × Database
  unfolding complete_cycle
  run_cycle s begin_locks finish_locks alert_locks started fetched finished at db =
      then_alerts alert_locks at (
        run_completing s begin_locks (complete_cycle finish_locks started fetched finished) run
          started db)
