-- ===== src/Model/Observation.antt =====
-- networth/model/observation.py: an append-only account observation.
use networth.Prelude.{ℕ, Bool, not, String, str_eq, ltb}
use networth.Prelude.Result.{Result, ok, ◌>>=◌, ◌>>◌, raise_if, invalid_observation}
use networth.Model.Texts.{is_nonempty}
use networth.Model.Item.{is_some}
use networth.Model.Figure.{SourcedFigure, same}

pub data ObservationSource : Type 0 where
  plaid_holdings plaid_balance manual quote : ObservationSource

pub record ObservationDraft : Type 0 where
  pub sync_run_id : String
  pub account_id : ℕ
  pub observed_at : ℕ
  pub figure : SourcedFigure
  pub source : ObservationSource
  pub fetched_at : ℕ
  pub is_carried_forward : Bool

-- `ObservationDraft.__post_init__`
unfoldable pub new_observation_draft : ObservationDraft → Result ObservationDraft
new_observation_draft o = do
  raise_if (not (is_nonempty o.sync_run_id)) invalid_observation
  raise_if (not (ltb 0 o.account_id)) invalid_observation
  raise_if (same (str_eq o.figure.source_clock "UNKNOWN") (is_some o.figure.as_of))
      invalid_observation
  ok o

pub record Observation : Type 0 where
  pub draft : ObservationDraft
  pub open draft use *
  pub id : ℕ

-- `Observation.__post_init__`
unfoldable pub new_observation : Observation → Result Observation
unfolding new_observation_draft
new_observation o = do
  d ← new_observation_draft o.draft
  raise_if (not (ltb 0 o.id)) invalid_observation
  ok o
