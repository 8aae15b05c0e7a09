-- ===== src/Examples/Dispatch.antt =====
-- The schedule and one activation of the household's full sync.
use networth.Prelude.{ℕ, ◌+◌, ◌*◌, ◌≡◌, ◌≤◌, ◌<◌, refl, true, false, some, List, [], ◌∷◌, contains}
use networth.Prelude.Result.{Result, ok}
use networth.Calendar.Dates.{hour}
use networth.Store.Tables.{full_sync, SyncRun, RetryRow, Database}
use networth.Scheduling.{FullSyncDue, full_sync_due, is_due}
use networth.Sync.Records.{SyncItemOutcome}
use networth.Dispatch.{
  Locks, write_retried, deferred_items, record_retries, run_locked, completed_run,
}
use networth.Dispatch.Backoff.{record_retries-delay}
use networth.Examples.Data.{thursday, noon, wednesday_close, household}
use networth.Examples.Sync.{setup}

abbrev finished_run : SyncRun
finished_run = record {
  id = "run-0";
  kind = full_sync;
  started_at = thursday;
  finished_at = some (thursday + hour);
  succeeded = some true;
}

abbrev synced : Database
synced = record household { runs = finished_run ∷ [] }

abbrev due_at_noon : FullSyncDue
due_at_noon = record {
  checked_at = noon;
  market_ready_at = wednesday_close + hour;
  last_successful_start = some thursday;
  last_successful_finish = some (thursday + hour);
  market_due = false;
  elapsed_due = false;
  new_account_due = false;
}

-- SQLite is busy at the first attempt only.
abbrev first_busy : Locks
first_busy = record { at_begin = λ i. contains i (0 ∷ []); at_commit = λ _. false }

abbrev five : Result ℕ
five = ok 5

second_attempt : write_retried first_busy five ≡ five
unfolding write_retried
second_attempt = refl

-- The third failure in a row.
abbrev third_failure : SyncItemOutcome
third_failure = record { item_id = 2; attempted = true; failed = true }

abbrev twice_failed : List RetryRow
twice_failed = record { item_id = 2; failures = 2; next_attempt_at = noon } ∷ []

four_hours :
    record_retries (third_failure ∷ []) noon twice_failed
    ≡ record { item_id = 2; failures = 3; next_attempt_at = noon + 4 * hour } ∷ []
unfolding record_retries
four_hours = refl

record_retries-delay_example :
    (let rows = record_retries (third_failure ∷ []) noon twice_failed in
      (true ≡ false → (t : ℕ) → contains 2 (deferred_items rows t) ≡ false)
      × (true ≡ true
          → ((t : ℕ) → t < noon + hour → contains 2 (deferred_items rows t) ≡ true)
            × ((t : ℕ) → noon + 8 * hour ≤ t → contains 2 (deferred_items rows t) ≡ false)))
record_retries-delay_example = record_retries-delay [] [] third_failure noon twice_failed refl refl

household_run :
    (run_locked setup first_busy first_busy "run-2" noon (noon + hour) household).0
    ≡ ok (completed_run "run-2" false false)
unfolding run_locked networth.Scheduling.full_sync_due
    networth.Calendar.Market.latest_completed_close networth.Calendar.Market.session_close
    networth.Calendar.Market.is_closed networth.Calendar.Dates.weekday
    networth.Calendar.Holidays.regular_holidays networth.Calendar.Dates.ordinal
    networth.Calendar.Dates.year_of networth.Calendar.Market.close_time
    networth.Calendar.Holidays.regular_early_closes networth.Scheduling.is_due
    networth.Sync.Cycle.collect_sync networth.Sync.Cycle.persist_sync
    networth.Model.Texts.is_nonempty networth.Store.Accounts.syncable networth.Store.Tables.convert
    networth.Model.Account.new_linked_account networth.Model.Texts.is_currency
    networth.Store.Items.get_item networth.Model.Item.new_item_health
    networth.Store.Observations.latest_for_account networth.Model.Figure.new_figure
    networth.Model.Observation.new_observation networth.Money.to_minor_units
household_run = refl
