-- ===== src/Scheduling.antt =====
-- networth/scheduling.py and networth/quote_scheduling.py: when a full sync and a quote refresh are due,
-- by the stored rows alone.
pub mod Due
use networth.Prelude.{
  ℕ, suc, ◌+◌, ◌*◌, Bool, true, false, not, ◌&&◌, ◌||◌, Option, none, some, List, [], ◌∷◌, leb, ltb,
  ◌==◌, if◌then◌else◌, keep, any,
}
use networth.Prelude.Result.{
  Result, ok, err, ◌>>=◌, ◌>>◌, raise_if, no_transaction, schedule_state, raised_outside,
}
use networth.Calendar.Dates.{hour}
use networth.Calendar.Market.{Calendar, latest_completed_close}
use networth.Model.Observation.{Observation}
use networth.Model.Freshness.{FreshnessPolicy, manual_qty_live_price}
use networth.Model.Account.{SnapshotAccount}
use networth.Store.Tables.{AccountRow, RunKind, full_sync, SyncRun, Database}
use networth.Store.Accounts.{is_syncable, for_snapshot}
use networth.Store.Observations.{latest_for_account}

abbrev pub full_sync_interval : ℕ
full_sync_interval = 20 * hour

abbrev pub post_close_grace : ℕ
post_close_grace = hour

pub record FullSyncDue : Type 0 where
  pub checked_at : ℕ
  pub market_ready_at : ℕ
  pub last_successful_start : Option ℕ
  pub last_successful_finish : Option ℕ
  pub market_due : Bool
  pub elapsed_due : Bool
  pub new_account_due : Bool

-- `FullSyncDue.due`
unfoldable pub is_due : FullSyncDue → Bool
is_due d = d.market_due || d.elapsed_due || d.new_account_due

abbrev pub is_full_sync : RunKind → Bool
is_full_sync full_sync = true
is_full_sync _ = false

abbrev pub is_true : Option Bool → Bool
is_true none = false
is_true (some b) = b

-- The SELECT of `due`, on one row: the clocks of a successful full sync.
abbrev pub success_of : SyncRun → Option ℕ → Option (ℕ × ℕ)
success_of r none = none
success_of r (some finish) =
    if is_full_sync r.kind && is_true r.succeeded then some (r.started_at, finish) else none

abbrev pub add_success : Option (ℕ × ℕ) → List (ℕ × ℕ) → List (ℕ × ℕ)
add_success none rest = rest
add_success (some s) rest = s ∷ rest

unfoldable pub successes : List SyncRun → List (ℕ × ℕ)
successes [] = []
successes (r ∷ rs) = add_success (success_of r r.finished_at) (successes rs)

-- `start > finish or finish > at`
abbrev pub is_inconsistent : ℕ → ℕ × ℕ → Bool
is_inconsistent at (start, finish) = ltb finish start || ltb at finish

abbrev pub greater : ℕ → Option ℕ → Option ℕ
greater x none = some x
greater x (some y) = some (if leb y x then x else y)

-- `max(starts, default=None)` and `max(finishes, default=None)`
unfoldable pub greatest : (ℕ × ℕ → ℕ) → List (ℕ × ℕ) → Option ℕ
greatest f [] = none
greatest f (s ∷ ss) = greater (f s) (greatest f ss)

abbrev pub last_start : List (ℕ × ℕ) → Option ℕ
last_start clocks = greatest (λ s. s.0) clocks

abbrev pub last_finish : List (ℕ × ℕ) → Option ℕ
last_finish clocks = greatest (λ s. s.1) clocks

abbrev pub before_or_absent : Option ℕ → ℕ → Bool
before_or_absent none t = true
before_or_absent (some s) t = ltb s t

-- `_has_account_newer_than`
unfoldable pub has_account_newer_than : List AccountRow → Option ℕ → Bool
unfolding is_syncable
has_account_newer_than rows none = false
has_account_newer_than rows (some start) =
    any (λ (a : AccountRow). ltb start a.created_at) (keep is_syncable rows)

abbrev pub has_elapsed : Option ℕ → ℕ → Bool
has_elapsed none at = true
has_elapsed (some finish) at = ltb (finish + full_sync_interval) at

-- `FullSyncSchedule.due`; `at - last_finish > interval` where `last_finish <= at`
unfoldable pub full_sync_due : Calendar → Database → Bool → ℕ → Result FullSyncDue
unfolding successes greatest has_account_newer_than
full_sync_due c db in_transaction at = do
  raise_if in_transaction no_transaction
  let clocks = successes db.runs
  raise_if (any (is_inconsistent at) clocks) schedule_state
  close ← latest_completed_close c at post_close_grace
  let ready = close + post_close_grace
  ok (record {
    checked_at = at;
    market_ready_at = ready;
    last_successful_start = last_start clocks;
    last_successful_finish = last_finish clocks;
    market_due = before_or_absent (last_start clocks) ready;
    elapsed_due = has_elapsed (last_finish clocks) at;
    new_account_due = has_account_newer_than db.accounts (last_start clocks);
  })

pub record QuoteRefreshDue : Type 0 where
  pub checked_at : ℕ
  pub market_close : ℕ
  pub target_count : ℕ
  pub due_count : ℕ

-- `QuoteRefreshDue.due`
unfoldable pub is_quote_due : QuoteRefreshDue → Bool
is_quote_due d = ltb 0 d.due_count

abbrev pub is_after_clock : ℕ → Option ℕ → Bool
is_after_clock at none = false
is_after_clock at (some t) = ltb at t

-- Whether the account's price is missing, unknown, or older than the close.
abbrev pub price_due : ℕ → ℕ → Option Observation → Result Bool
price_due at close none = ok true
price_due at close (some o) =
    if ltb at o.observed_at || ltb at o.fetched_at || is_after_clock at o.figure.as_of
    then err schedule_state
    else ok (before_or_absent o.figure.as_of close)

abbrev pub is_quoted : FreshnessPolicy → Bool
is_quoted manual_qty_live_price = true
is_quoted _ = false

-- The loop of `QuoteRefreshSchedule.due`: the targets, and those that are due. Any error becomes the
-- one fixed diagnostic.
unfoldable pub count_quotes : List Observation → ℕ → ℕ → List SnapshotAccount → Result (ℕ × ℕ)
count_quotes observations at close [] = ok (0, 0)
count_quotes observations at close (account ∷ accounts) =
    let rest = count_quotes observations at close accounts in
    if is_quoted account.freshness_policy
    then (do
      last ← latest_for_account observations account.id
      due ← price_due at close last
      (targets, dues) ← rest
      ok (suc targets, if due then suc dues else dues))
    else rest

abbrev pub or_schedule_state {ℓ} : {A : Type ℓ} → Result A → Result A
or_schedule_state (ok a) = ok a
or_schedule_state (err e) = err schedule_state

-- `QuoteRefreshSchedule.due`
unfoldable pub quote_refresh_due : Calendar → Database → Bool → ℕ → Result QuoteRefreshDue
unfolding count_quotes
quote_refresh_due c db in_transaction at = do
  raise_if in_transaction no_transaction
  close ← latest_completed_close c at 0
  (targets, due) ←
      or_schedule_state
        (do accounts ← for_snapshot db.accounts; count_quotes db.observations at close accounts)
  ok (record { checked_at = at; market_close = close; target_count = targets; due_count = due })
