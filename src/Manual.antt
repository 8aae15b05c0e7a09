-- ===== src/Manual.antt =====
-- networth/manual.py, and `PropertyValuation` of networth/model/manual.py: the revision log of a
-- property, read as of a day.
pub mod AsOf
use networth.Prelude.{
  ℕ, Bool, true, false, not, ◌&&◌, Option, none, some, String, str_eq, List, [], ◌∷◌, leb, ltb,
  ◌==◌, if◌then◌else◌, keep,
}
use networth.Prelude.Int.{ℤ}
use networth.Prelude.Result.{
  Result, ok, err, ◌>>=◌, ◌>>◌, raise_if, not_a_revision, invalid_valuation,
}
use networth.Prelude.Sort.{sort, last}
use networth.Model.Texts.{is_nonempty}
use networth.Model.Figure.{new_figure}
use networth.Model.Observation.{
  ObservationSource, plaid_holdings, plaid_balance, manual, quote, ObservationDraft, Observation,
  new_observation_draft,
}

abbrev pub manual_valued_as_of : String
manual_valued_as_of = "MANUAL_VALUED_AS_OF"

pub record PropertyValuation : Type 0 where
  pub value_minor : ℤ
  pub currency : String
  pub valued_as_of : ℕ

-- `PropertyValuation.__post_init__`
unfoldable pub new_valuation : PropertyValuation → Result PropertyValuation
new_valuation v = if is_nonempty v.currency then ok v else err invalid_valuation

pub record Revision : Type 0 where
  pub valuation : PropertyValuation
  pub open valuation use *
  pub entered_at : ℕ
  pub sequence : ℕ

-- Lexicographic `<=` on `Revision.order_key`.
unfoldable pub key_before : Revision → Revision → Bool
key_before r s =
    if r.valued_as_of == s.valued_as_of
    then (if r.entered_at == s.entered_at
        then leb r.sequence s.sequence
        else leb r.entered_at s.entered_at)
    else leb r.valued_as_of s.valued_as_of

pub record PropertyRevisionLog : Type 0 where
  pub entries : List Revision

-- `PropertyRevisionLog.__init__`
unfoldable pub new_log : List Revision → PropertyRevisionLog
new_log entries = record { entries = sort key_before entries }

abbrev pub is_manual : ObservationSource → Bool
is_manual manual = true
is_manual _ = false

revision_at : Observation → Option ℕ → Result Revision
unfolding new_valuation
revision_at o none = err not_a_revision
revision_at o (some day) = do
  v ← new_valuation (record {
    value_minor = o.figure.value_minor;
    currency = o.figure.currency;
    valued_as_of = day;
  })
  ok (record { valuation = v; entered_at = o.observed_at; sequence = o.id })

-- One round of the loop of `from_observations`.
unfoldable pub revision_of : Observation → Result Revision
unfolding revision_at
revision_of o = do
  raise_if (not (is_manual o.source && str_eq o.figure.source_clock manual_valued_as_of))
      not_a_revision
  revision_at o o.figure.as_of

unfoldable pub revisions_of : List Observation → Result (List Revision)
unfolding revision_of
revisions_of [] = ok []
revisions_of (o ∷ os) = do r ← revision_of o; rs ← revisions_of os; ok (r ∷ rs)

-- `PropertyRevisionLog.from_observations`
unfoldable pub from_observations : List Observation → Result PropertyRevisionLog
unfolding revisions_of new_log
from_observations os = do rs ← revisions_of os; ok (new_log rs)

abbrev pub in_force : ℕ → Revision → Bool
in_force day r = leb r.valued_as_of day

-- `PropertyRevisionLog.as_of`
unfoldable pub as_of_day : PropertyRevisionLog → ℕ → Option Revision
as_of_day log day = last (keep (in_force day) log.entries)

-- `PropertyRevisionLog.current`
unfoldable pub current : PropertyRevisionLog → ℕ → Option Revision
unfolding as_of_day
current log now = as_of_day log now

-- `PropertyValuation.figure` and `revision_draft`
unfoldable pub revision_draft : String → ℕ → PropertyValuation → ℕ → Result ObservationDraft
unfolding new_observation_draft
revision_draft sync_run_id account_id v observed_at = do
  f ← new_figure (record {
    value_minor = v.value_minor;
    currency = v.currency;
    as_of = some v.valued_as_of;
    source_clock = manual_valued_as_of;
  })
  new_observation_draft (record {
    sync_run_id = sync_run_id;
    account_id = account_id;
    observed_at = observed_at;
    figure = f;
    source = manual;
    fetched_at = observed_at;
    is_carried_forward = false;
  })
