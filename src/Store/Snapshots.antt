-- ===== src/Store/Snapshots.antt =====
-- networth/store/sqlite.py: `SnapshotRepository`.
use networth.Prelude.{
  ℕ, ◌+◌, Bool, true, false, not, ◌&&◌, Option, none, some, List, [], ◌∷◌, ◌++◌, leb, ltb, ◌==◌,
  if◌then◌else◌, String, str_eq,
}
use networth.Prelude.Int.{◌==ℤ◌}
use networth.Prelude.Result.{
  Result, ok, err, ◌>>=◌, ◌>>◌, raise_if, snapshot_conflict, run_not_successful, stored_data,
}
use networth.Prelude.Sort.{sort, last}
use networth.Model.Item.{is_some}
use networth.Model.Figure.{
  SnapshotAgeState, known, unknown, static_only, SnapshotAge, new_age, SourcedFigure, same,
  same_clock,
}
use networth.Model.Snapshot.{
  SnapshotCounts, new_counts, SnapshotDraft, new_snapshot_draft, Snapshot,
}
use networth.Store.Tables.{Database, SyncRun, from_row, convert, convert_optional, find}

-- `_snapshot_from_row`
unfoldable pub snapshot_from_row : Snapshot → Result Snapshot
snapshot_from_row s = from_row (do
  a ← new_age s.age
  c ← new_counts s.counts
  d ← new_snapshot_draft s.draft
  raise_if (not (ltb 0 s.id)) stored_data
  ok s)

-- Dataclass equality, field by field.
abbrev pub same_figure : SourcedFigure → SourcedFigure → Bool
same_figure a b =
    (a.value_minor ==ℤ b.value_minor)
    && str_eq a.currency b.currency
    && same_clock a.as_of b.as_of
    && str_eq a.source_clock b.source_clock

abbrev pub same_counts : SnapshotCounts → SnapshotCounts → Bool
same_counts a b =
    (a.account_count == b.account_count)
    && (a.stale_account_count == b.stale_account_count)
    && (a.unknown_freshness_account_count == b.unknown_freshness_account_count)
    && (a.static_account_count == b.static_account_count)
    && (a.reauth_account_count == b.reauth_account_count)
    && (a.unreconciled_account_count == b.unreconciled_account_count)

abbrev pub same_age_state : SnapshotAgeState → SnapshotAgeState → Bool
same_age_state known known = true
same_age_state unknown unknown = true
same_age_state static_only static_only = true
same_age_state _ _ = false

abbrev pub same_age : SnapshotAge → SnapshotAge → Bool
same_age a b =
    same_age_state a.state b.state
    && same_clock a.as_of b.as_of
    && same_clock a.oldest_known_source_as_of b.oldest_known_source_as_of

unfoldable pub same_draft : SnapshotDraft → SnapshotDraft → Bool
same_draft a b =
    str_eq a.sync_run_id b.sync_run_id
    && (a.taken_at == b.taken_at)
    && same_figure a.net_worth b.net_worth
    && same_figure a.assets b.assets
    && same_figure a.liabilities b.liabilities
    && same_counts a.counts b.counts
    && same a.is_complete b.is_complete
    && same_age a.age b.age

-- `SnapshotRepository.for_sync_run`
unfoldable pub snapshot_for_run : List Snapshot → String → Result (Option Snapshot)
unfolding snapshot_from_row
snapshot_for_run rows run =
    convert_optional snapshot_from_row (find (λ s. str_eq s.sync_run_id run) rows)

-- `ok = 1`
abbrev pub is_one : Option Bool → Bool
is_one none = false
is_one (some b) = b

abbrev pub is_successful : Option SyncRun → Bool
is_successful none = false
is_successful (some r) = is_some r.finished_at && is_one r.succeeded

-- `_require_successful_run`
unfoldable pub require_successful_run : List SyncRun → String → Result (Unit {0})
require_successful_run runs run =
    raise_if (not (is_successful (find (λ r. str_eq r.id run) runs))) run_not_successful

abbrev pub next_snapshot_id : List Snapshot → ℕ
next_snapshot_id [] = 1
next_snapshot_id (s ∷ ss) = let n = next_snapshot_id ss in if ltb s.id n then n else s.id + 1

abbrev pub append_new : Database → SnapshotDraft → Option Snapshot → Result (Snapshot × Database)
append_new db d (some existing) =
    if same_draft existing.draft d then ok (existing, db) else err snapshot_conflict
append_new db d none =
    let stored : Snapshot = record { draft = d; id = next_snapshot_id db.snapshots } in
    ok (stored, record db { snapshots = db.snapshots ++ stored ∷ [] })

-- `SnapshotRepository.append`. The caller's transaction lets no other writer in between the read
-- and the INSERT, so the branch for a concurrent writer is not taken.
unfoldable pub append_snapshot : Database → SnapshotDraft → Result (Snapshot × Database)
unfolding require_successful_run snapshot_for_run same_draft
append_snapshot db d = do
  require_successful_run db.runs d.sync_run_id
  existing ← snapshot_for_run db.snapshots d.sync_run_id
  append_new db d existing

-- `ORDER BY s.taken_at, s.id`
abbrev pub by_taken : Snapshot → Snapshot → Bool
by_taken a b = if a.taken_at == b.taken_at then leb a.id b.id else leb a.taken_at b.taken_at

-- `SnapshotRepository.latest`
unfoldable pub latest_snapshot : List Snapshot → Result (Option Snapshot)
unfolding snapshot_from_row
latest_snapshot rows = convert_optional snapshot_from_row (last (sort by_taken rows))

-- `SnapshotRepository.history`
unfoldable pub snapshot_history : List Snapshot → Result (List Snapshot)
unfolding snapshot_from_row
snapshot_history rows = convert snapshot_from_row (sort by_taken rows)
