-- ===== src/Calendar/Zone.antt =====
-- `ZoneInfo("America/New_York")`, which the source takes from the tz database: the date that an
-- instant has in New York, and the instant of a New York wall time. The laws are documented facts
-- of that zone: its offset lies from four to five hours behind UTC, and its dates follow the order
-- of the instants.
use networth.Prelude.{ℕ, ◌+◌, ◌-◌, ◌*◌, ◌/◌, ◌≤◌, ◌<◌, arith}
use networth.Calendar.Dates.{hour, day}
use native.Mathlib.Nat.{le_refl}

pub record Zone : Type 0 where
  -- `at.astimezone(_EASTERN).date()`
  pub date_at : ℕ → ℕ
  -- `datetime.combine(d, t, tzinfo=_EASTERN).astimezone(UTC)`
  pub instant : ℕ → ℕ → ℕ

pub record IsEastern (z : Zone) : Type 0 where
  pub date_low : (at : ℕ) → z.date_at at * day ≤ at
  pub date_high : (at : ℕ) → at < z.date_at at * day + day + 5 * hour
  pub date_mono : (a b : ℕ) → a ≤ b → z.date_at a ≤ z.date_at b
  pub instant_low : (d t : ℕ) → d * day + t + 4 * hour ≤ z.instant d t
  pub instant_high : (d t : ℕ) → z.instant d t ≤ d * day + t + 5 * hour

-- Standard time all the year round meets the laws.
abbrev pub standard_time : Zone
standard_time = record {
  date_at = λ a. (a - 5 * hour) / day;
  instant = λ d t. d * day + t + 5 * hour;
}

pub standard_time-IsEastern : IsEastern standard_time
standard_time-IsEastern = record {
  date_low = λ a. omega arith;
  date_high = λ a. omega arith;
  date_mono = λ a b h. omega arith;
  instant_low = λ d t. omega arith;
  instant_high = λ d t. le_refl _;
}
