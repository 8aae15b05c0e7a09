-- ===== src/Model/Figure.antt =====
-- networth/model/figure.py: money with its clock, and the tagged age of a snapshot.
use networth.Prelude.{
  ℕ, Bool, true, false, not, ◌&&◌, ◌||◌, Option, none, some, String, str_eq, ◌==◌, if◌then◌else◌,
}
use networth.Prelude.Int.{ℤ}
use networth.Prelude.Result.{Result, ok, err, ◌>>◌, raise_if, invalid_figure, invalid_age}
use networth.Model.Texts.{is_nonempty, is_currency}
use networth.Model.Item.{is_some}

pub data SnapshotAgeState : Type 0 where
  known unknown static_only : SnapshotAgeState

abbrev pub is_unknown_age : SnapshotAgeState → Bool
is_unknown_age unknown = true
is_unknown_age _ = false

-- The values of `AggregateSourceClock`, by the age state that gives each: `SnapshotAge.source_clock`.
unfoldable pub source_clock_of : SnapshotAgeState → String
source_clock_of known = "OLDEST_CONTRIBUTING_SOURCE_AS_OF"
source_clock_of unknown = "UNKNOWN"
source_clock_of static_only = "STATIC_ONLY"

pub record SourcedFigure : Type 0 where
  pub value_minor : ℤ
  pub currency : String
  pub as_of : Option ℕ
  pub source_clock : String

-- Membership of `undated_clocks`.
unfoldable pub is_undated : String → Bool
is_undated s = str_eq s "UNKNOWN" || str_eq s "STATIC_ONLY"

abbrev pub same : Bool → Bool → Bool
same true b = b
same false b = not b

-- `SourcedFigure.__post_init__`
unfoldable pub new_figure : SourcedFigure → Result SourcedFigure
unfolding is_undated
new_figure f = do
  raise_if (not (is_currency f.currency)) invalid_figure
  raise_if (not (is_nonempty f.source_clock)) invalid_figure
  raise_if (same (is_some f.as_of) (is_undated f.source_clock)) invalid_figure
  ok f

pub record SnapshotAge : Type 0 where
  pub state : SnapshotAgeState
  pub as_of : Option ℕ
  pub oldest_known_source_as_of : Option ℕ

-- `==` on clocks that may be absent.
abbrev pub same_clock : Option ℕ → Option ℕ → Bool
same_clock none none = true
same_clock none (some _) = false
same_clock (some _) none = false
same_clock (some a) (some b) = a == b

abbrev pub age_fits : SnapshotAgeState → Option ℕ → Option ℕ → Bool
age_fits known as_of oldest = is_some as_of && same_clock oldest as_of
age_fits unknown as_of oldest = not (is_some as_of)
age_fits static_only as_of oldest = not (is_some as_of) && not (is_some oldest)

-- `SnapshotAge.__post_init__`
unfoldable pub new_age : SnapshotAge → Result SnapshotAge
new_age a = if age_fits a.state a.as_of a.oldest_known_source_as_of then ok a else err invalid_age

-- `SnapshotAge.figure`, at its default currency
unfoldable pub figure_of : SnapshotAge → ℤ → Result SourcedFigure
unfolding new_figure source_clock_of
figure_of a value = new_figure (record {
  value_minor = value;
  currency = "USD";
  as_of = a.as_of;
  source_clock = source_clock_of a.state;
})
