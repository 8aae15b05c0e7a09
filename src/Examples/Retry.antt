-- ===== src/Examples/Retry.antt =====
-- A snapshot of an empty household, appended once.
use networth.Prelude.{◌≡◌, refl, true, none, some, [], ◌∷◌}
use networth.Prelude.Int.{pos}
use networth.Prelude.Result.{ok}
use networth.Model.Texts.{is_nonempty}
use networth.Model.Figure.{static_only, SnapshotAge, new_age, SourcedFigure, source_clock_of}
use networth.Model.Snapshot.{new_counts, SnapshotDraft, new_snapshot_draft, Snapshot}
use networth.Store.Tables.{full_sync, Database}
use networth.Store.Snapshots.{append_snapshot}
use networth.Store.Retries.{IsChecked, append_snapshot-idempotent}
use networth.Examples.Data.{noon, household}

abbrev no_age : SnapshotAge
no_age = record { state = static_only; as_of = none; oldest_known_source_as_of = none }

abbrev zero_figure : SourcedFigure
zero_figure = record {
  value_minor = pos 0;
  currency = "USD";
  as_of = none;
  source_clock = source_clock_of static_only;
}

abbrev draft : SnapshotDraft
draft = record {
  sync_run_id = "run-1";
  taken_at = noon;
  net_worth = zero_figure;
  assets = zero_figure;
  liabilities = zero_figure;
  counts = record {
    account_count = 0;
    stale_account_count = 0;
    unknown_freshness_account_count = 0;
    static_account_count = 0;
    reauth_account_count = 0;
    unreconciled_account_count = 0;
  };
  is_complete = true;
  age = no_age;
}

abbrev tables : Database
tables = record household {
  runs =
      record {
        id = "run-1";
        kind = full_sync;
        started_at = noon;
        finished_at = some noon;
        succeeded = some true;
      }
      ∷ [];
}

abbrev stored : Snapshot
stored = record { draft = draft; id = 1 }

checked : IsChecked draft
unfolding new_age new_counts new_snapshot_draft is_nonempty source_clock_of
checked = record { age_checked = refl; counts_checked = refl; draft_checked = refl }

appended : append_snapshot tables draft ≡ ok (stored, record tables { snapshots = stored ∷ [] })
unfolding append_snapshot
appended = refl

append_snapshot-idempotent_example :
    append_snapshot (record tables { snapshots = stored ∷ [] }) draft
    ≡ ok (stored, record tables { snapshots = stored ∷ [] })
append_snapshot-idempotent_example =
    append_snapshot-idempotent tables (record tables { snapshots = stored ∷ [] }) draft stored
      checked appended
