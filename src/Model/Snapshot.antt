-- ===== src/Model/Snapshot.antt =====
-- networth/model/snapshot.py: a run's totals with the counts and the age that qualify them.
use networth.Prelude.{ℕ, Bool, not, ◌&&◌, ◌||◌, String, str_eq, ltb}
use networth.Prelude.Result.{Result, ok, ◌>>◌, raise_if, invalid_counts, invalid_draft}
use networth.Model.Texts.{is_nonempty}
use networth.Model.Figure.{
  SourcedFigure, SnapshotAge, is_unknown_age, source_clock_of, same, same_clock,
}

pub record SnapshotCounts : Type 0 where
  pub account_count : ℕ
  pub stale_account_count : ℕ
  pub unknown_freshness_account_count : ℕ
  pub static_account_count : ℕ
  pub reauth_account_count : ℕ
  pub unreconciled_account_count : ℕ

-- `SnapshotCounts.__post_init__`
unfoldable pub new_counts : SnapshotCounts → Result SnapshotCounts
new_counts c = do
  raise_if (ltb c.account_count c.stale_account_count) invalid_counts
  raise_if (ltb c.account_count c.unknown_freshness_account_count) invalid_counts
  raise_if (ltb c.account_count c.static_account_count) invalid_counts
  raise_if (ltb c.account_count c.reauth_account_count) invalid_counts
  raise_if (ltb c.account_count c.unreconciled_account_count) invalid_counts
  ok c

pub record SnapshotDraft : Type 0 where
  pub sync_run_id : String
  pub taken_at : ℕ
  pub net_worth : SourcedFigure
  pub assets : SourcedFigure
  pub liabilities : SourcedFigure
  pub counts : SnapshotCounts
  pub is_complete : Bool
  pub age : SnapshotAge

-- The checks of one figure against the snapshot's age.
abbrev pub figure_matches : SnapshotAge → SourcedFigure → Bool
figure_matches a f =
    str_eq f.currency "USD"
    && same_clock f.as_of a.as_of
    && str_eq f.source_clock (source_clock_of a.state)

-- `SnapshotDraft.__post_init__`
unfoldable pub new_snapshot_draft : SnapshotDraft → Result SnapshotDraft
new_snapshot_draft d = do
  raise_if (not (is_nonempty d.sync_run_id)) invalid_draft
  raise_if
      (d.is_complete
        && (ltb 0 d.counts.stale_account_count || ltb 0 d.counts.unreconciled_account_count))
      invalid_draft
  raise_if
      (not (same (ltb 0 d.counts.unknown_freshness_account_count) (is_unknown_age d.age.state)))
      invalid_draft
  raise_if (not (figure_matches d.age d.net_worth)) invalid_draft
  raise_if (not (figure_matches d.age d.assets)) invalid_draft
  raise_if (not (figure_matches d.age d.liabilities)) invalid_draft
  ok d

pub record Snapshot : Type 0 where
  pub draft : SnapshotDraft
  pub open draft use *
  pub id : ℕ
