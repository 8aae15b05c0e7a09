-- ===== src/Dispatch.antt =====
-- networth/dispatch.py: one activation of the full-sync, health and alert dispatchers. SQLite's locks,
-- the run id and the clock readings are arguments; the lock file admits one caller at a time and is
-- not modelled.
pub mod Write
pub mod Backoff
pub mod Committed
use networth.Prelude.{
  ℕ, zero, suc, ◌+◌, ◌-◌, ◌*◌, Bool, true, false, not, ◌&&◌, ◌||◌, Option, none, some, String,
  str_eq, List, [], ◌∷◌, ◌++◌, leb, ltb, ◌==◌, if◌then◌else◌, all, any, contains, keep,
}
use networth.Prelude.Result.{
  Result, ok, err, Error, ◌>>=◌, ◌>>◌, raise_if, schedule_state, raised_outside,
}
use networth.Calendar.Dates.{hour}
use networth.Calendar.Market.{Calendar}
use networth.Model.Item.{ItemHealth}
use networth.Model.Account.{LinkedAccount}
use networth.Store.Tables.{RunKind, full_sync, SyncRun, RetryRow, Database, find}
use networth.Store.Accounts.{syncable}
use networth.Plaid.{ItemStatus}
use networth.Poller.{PollBatchResult, collect_due, persist}
use networth.Alerts.{Evaluation}
use networth.CycleAlerts.{ManualAsset, cycle_evaluate}
use networth.Scheduling.{FullSyncDue, is_due, full_sync_due}
use networth.Sync.Records.{SyncItemOutcome, FullSyncPlan, FullSyncResult}
use networth.Sync.Cycle.{SyncSetup, collect_sync, persist_sync, is_failed}

-- Whether SQLite refuses an attempt as busy when it begins and when it commits.
pub record Locks : Type 0 where
  pub at_begin : ℕ → Bool
  pub at_commit : ℕ → Bool

-- What one attempt comes to, its transaction rolled back unless it committed.
pub data Attempt {ℓ} (A : Type ℓ) : Type ℓ where
  busy : Attempt A
  failed : Error → Attempt A
  committed : A → Attempt A

abbrev pub finish_attempt {ℓ} : {A : Type ℓ} → Bool → Result A → Attempt A
finish_attempt locked (err e) = failed e
finish_attempt true (ok a) = busy
finish_attempt false (ok a) = committed a

abbrev pub attempt_once {ℓ} : {A : Type ℓ} → Locks → Result A → ℕ → Attempt A
attempt_once locks operation i =
    if locks.at_begin i then busy else finish_attempt (locks.at_commit i) operation

abbrev pub database_busy : Error
database_busy = raised_outside "OperationalError"

-- One turn of the loop: what the attempt gave, and what the later attempts would give.
abbrev pub write_turn {ℓ} : {A : Type ℓ} → ℕ → Result A → Attempt A → Result A
write_turn i later (committed a) = ok a
write_turn i later (failed e) = err e
write_turn i later busy = if i == 2 then err database_busy else later

abbrev pub write_loop {ℓ} : {A : Type ℓ} → Locks → Result A → ℕ → ℕ → Result A
write_loop locks operation i zero = err (raised_outside "AssertionError")
write_loop locks operation i (suc n) =
    let later = write_loop locks operation (suc i) n in
    write_turn i later (attempt_once locks operation i)

-- `_write`; a rollback restores the tables, so every attempt runs the operation on the same ones
unfoldable pub write_retried {ℓ} : {A : Type ℓ} → Locks → Result A → Result A
write_retried locks operation = write_loop locks operation 0 3

-- `_deferred`
unfoldable pub deferred_items : List RetryRow → ℕ → List ℕ
deferred_items [] at = []
deferred_items (r ∷ rs) at =
    let rest = deferred_items rs at in if ltb at r.next_attempt_at then r.item_id ∷ rest else rest

abbrev pub lesser_of : ℕ → ℕ → ℕ
lesser_of a b = if leb a b then a else b

-- `2 ** n`
abbrev pub power_of_two : ℕ → ℕ
power_of_two zero = 1
power_of_two (suc n) = 2 * power_of_two n

abbrev pub next_failures : Option RetryRow → ℕ
next_failures none = 1
next_failures (some r) = lesser_of (r.failures + 1) 4

abbrev pub is_row_of : ℕ → RetryRow → Bool
is_row_of item_id r = r.item_id == item_id

-- The DELETE of a success.
abbrev pub without_item : ℕ → List RetryRow → List RetryRow
without_item item_id rows = keep (λ r. not (is_row_of item_id r)) rows

abbrev pub update_row : RetryRow → List RetryRow → List RetryRow
update_row r [] = []
update_row r (x ∷ rows) = (if is_row_of r.item_id x then r else x) ∷ update_row r rows

-- The INSERT of a failure, which updates the Item's row where there is one.
abbrev pub put_row : RetryRow → List RetryRow → List RetryRow
put_row r rows = if any (is_row_of r.item_id) rows then update_row r rows else rows ++ r ∷ []

abbrev pub retry_row : ℕ → Option RetryRow → ℕ → RetryRow
retry_row item_id found at =
    let failures = next_failures found in
    record {
      item_id = item_id;
      failures = failures;
      next_attempt_at = at + power_of_two (failures - 1) * hour;
    }

-- One turn of `_record_retries`.
unfoldable pub record_retry : SyncItemOutcome → ℕ → List RetryRow → List RetryRow
record_retry o at rows =
    if not o.attempted
    then rows
    else if not o.failed
    then without_item o.item_id rows
    else put_row (retry_row o.item_id (find (is_row_of o.item_id) rows) at) rows

-- `_record_retries`
unfoldable pub record_retries : List SyncItemOutcome → ℕ → List RetryRow → List RetryRow
unfolding record_retry
record_retries [] at rows = rows
record_retries (o ∷ os) at rows = record_retries os at (record_retry o at rows)

-- The UPDATE that finishes a run.
abbrev pub finish_runs : String → ℕ → Bool → List SyncRun → List SyncRun
finish_runs run finished succeeded [] = []
finish_runs run finished succeeded (r ∷ rs) =
    (if str_eq r.id run
      then record r { finished_at = some finished; succeeded = some succeeded }
      else r)
    ∷ finish_runs run finished succeeded rs

-- `_finish`
unfoldable pub finish_run : String → FullSyncPlan → ℕ → Database → Result (Bool × Database)
unfolding record_retries
finish_run run plan finished db = do
  (result, db') ← persist_sync db plan
  let succeeded = not (is_failed result.failures)
  ok (
    succeeded,
    record db' {
      retries = record_retries plan.items finished db'.retries;
      runs = finish_runs run finished succeeded db'.runs;
    },
  )

-- `_complete`
unfoldable pub complete_run :
    Locks → String → FullSyncPlan → ℕ → ℕ → Database → Result (Bool × Database)
unfolding finish_run
complete_run locks run plan started finished db = do
  raise_if (ltb finished started) (raised_outside "ValueError")
  write_retried locks (finish_run run plan finished db)

-- `begin`: the run's row; its id is the primary key.
unfoldable pub begin_run : String → ℕ → Database → Result Database
begin_run run started db =
    if any (λ (r : SyncRun). str_eq r.id run) db.runs
    then err (raised_outside "IntegrityError")
    else ok (record db {
      runs =
          db.runs
          ++ record {
            id = run;
            kind = full_sync;
            started_at = started;
            finished_at = none;
            succeeded = none;
          }
            ∷ [];
    })

-- `DispatchResult`
pub data DispatchResult : Type 0 where
  not_due : DispatchResult
  all_deferred : Bool → DispatchResult
  completed_run : String → Bool → Bool → DispatchResult

-- Whether the run is due, and whether that is because the stored clocks are unusable.
abbrev pub admitted : Result FullSyncDue → Result (Bool × Bool)
admitted (ok d) = ok (is_due d, false)
admitted (err schedule_state) = ok (true, true)
admitted (err e) = err e

abbrev pub is_deferred_run : List ℕ → List LinkedAccount → Bool
is_deferred_run deferred [] = false
is_deferred_run deferred (t ∷ ts) =
    all (λ (a : LinkedAccount). contains a.item_id deferred) (t ∷ ts)

-- A step that keeps the tables where it raised.
abbrev pub or_unchanged {ℓ} : {A : Type ℓ} → Database → Result (A × Database) → Result A × Database
or_unchanged db (err e) = (err e, db)
or_unchanged db (ok (a, db')) = (ok a, db')

-- What completes a run; a full cycle does it its own way.
abbrev pub Completion : Type 0
Completion = FullSyncPlan → Database → Result (Bool × Database)

module _ (s : SyncSetup) (begin_locks : Locks) (complete : Completion) (run : String)
    (started : ℕ) where
  -- From the collection on, over the tables that hold the unfinished run.
  abbrev pub run_collected : List ℕ → Database → Result (Bool × Database)
  run_collected deferred db = do
    plan ← collect_sync s db false run started deferred
    complete plan db

  abbrev pub as_completed : Bool → Result Bool × Database → Result DispatchResult × Database
  as_completed state_error (ok succeeded, db) = (ok (completed_run run succeeded state_error), db)
  as_completed state_error (err e, db) = (err e, db)

  abbrev pub run_begun :
      Bool → List ℕ → Database → Result Database → Result DispatchResult × Database
  run_begun state_error deferred db (err e) = (err e, db)
  run_begun state_error deferred db (ok db') =
      as_completed state_error (or_unchanged db' (run_collected deferred db'))

  abbrev pub run_targets :
      Bool → List ℕ → Database → Result (List LinkedAccount) → Result DispatchResult × Database
  run_targets state_error deferred db (err e) = (err e, db)
  run_targets state_error deferred db (ok targets) =
      if is_deferred_run deferred targets
      then (ok (all_deferred state_error), db)
      else run_begun state_error deferred db (write_retried begin_locks (begin_run run started db))

  abbrev pub run_admitted : Database → Result (Bool × Bool) → Result DispatchResult × Database
  run_admitted db (err e) = (err e, db)
  run_admitted db (ok (false, _)) = (ok not_due, db)
  run_admitted db (ok (true, state_error)) =
      run_targets state_error (deferred_items db.retries started) db (syncable db.accounts)

  -- `_run_locked` with this completion.
  unfoldable pub run_completing : Database → Result DispatchResult × Database
  unfolding begin_run write_retried deferred_items
  run_completing db = run_admitted db (admitted (full_sync_due s.calendar db false started))

abbrev pub completion_of : Locks → String → ℕ → ℕ → Completion
completion_of locks run started finished plan db = complete_run locks run plan started finished db

-- `FullSyncDispatcher._run_locked`: the result, and the tables whether it raised or not.
unfoldable pub run_locked :
    SyncSetup → Locks → Locks → String → ℕ → ℕ → Database → Result DispatchResult × Database
unfolding complete_run run_completing
run_locked s begin_locks finish_locks run started finished db =
    run_completing s begin_locks (completion_of finish_locks run started finished) run started db

-- `HealthDispatcher.run_due`
unfoldable pub run_health :
    (String → Result String)
    → (String → Result ItemStatus)
    → Locks
    → ℕ
    → Database
    → Result PollBatchResult × Database
unfolding write_retried
run_health tokens client locks at db = or_unchanged db (do
  plan ← collect_due tokens client db.items at
  if plan.attempted_count == 0
      then ok (record { attempted_count = 0; recorded = []; failure_types = [] }, db)
      else write_retried locks
          (do (result, items) ← persist db.items plan; ok (result, record db { items = items })))

-- `AlertDispatcher.run`
unfoldable pub run_alerts : Calendar → List ManualAsset → Locks → ℕ → Database → Result Evaluation
unfolding write_retried
run_alerts c assets locks at db = write_retried locks (cycle_evaluate c assets true db at)
