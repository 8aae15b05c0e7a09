-- ===== src/Examples/Market.antt =====
-- The market calendar and the revision log at concrete inputs.
use networth.Prelude.{ℕ, ◌+◌, ◌*◌, ◌≤◌, ◌≡◌, ◌↔◌, refl, none, some, In, arith}
use networth.Prelude.Result.{ok}
use networth.Calendar.Dates.{hour, day, ordinal, weekday, year_of}
use networth.Calendar.Holidays.{regular_holidays, regular_early_closes}
use networth.Calendar.Zone.{standard_time-IsEastern}
use networth.Calendar.Market.{
  latest_completed_close, completed_closes_after, session_close, is_closed, close_time,
}
use networth.Calendar.Market.Latest.{
  Completed, latest_completed_close_newest, latest_completed_close_total,
}
use networth.Calendar.Market.After.{
  Later, In-completed_closes_after, IsIncreasing, completed_closes_after-IsIncreasing,
}
use networth.Examples.Data.{calendar, noon, wednesday_close}

thanksgiving : ordinal 2026 11 26 ≡ 739946
unfolding ordinal
thanksgiving = refl

latest_at_noon : latest_completed_close calendar noon 0 ≡ ok wednesday_close
unfolding latest_completed_close session_close is_closed weekday regular_holidays ordinal year_of
    close_time regular_early_closes
latest_at_noon = refl

wednesday-Completed : Completed calendar 0 noon 739945 wednesday_close
unfolding session_close is_closed weekday regular_holidays ordinal year_of close_time
    regular_early_closes
wednesday-Completed = record { session = refl; elapsed = omega arith }

-- Thanksgiving itself has no session, and the Friday after closes early, at 13:00 in New York.
holiday_week :
    (session_close calendar 739946 ≡ none)
    × (session_close calendar 739947 ≡ some (739947 * day + 18 * hour))
unfolding session_close is_closed weekday regular_holidays ordinal year_of close_time
    regular_early_closes
holiday_week = (refl, refl)

latest_completed_close_newest_example :
    ((d : ℕ) × Completed calendar 0 noon d wednesday_close)
    × ((e a : ℕ) → Completed calendar 0 noon e a → a ≤ wednesday_close)
latest_completed_close_newest_example =
    latest_completed_close_newest calendar 0 noon standard_time-IsEastern wednesday_close
      latest_at_noon

latest_completed_close_total_example : (r : ℕ) × (latest_completed_close calendar noon 0 ≡ ok r)
latest_completed_close_total_example =
    latest_completed_close_total calendar 0 noon standard_time-IsEastern 739945 wednesday_close
      (omega arith) wednesday-Completed

In-completed_closes_after_example :
    In wednesday_close (completed_closes_after calendar (739944 * day + 21 * hour) noon 0)
    ↔ ((d : ℕ) × Later calendar (739944 * day + 21 * hour) noon 0 d wednesday_close)
In-completed_closes_after_example =
    In-completed_closes_after calendar (739944 * day + 21 * hour) noon 0 standard_time-IsEastern
      wednesday_close

completed_closes_after-IsIncreasing_example :
    IsIncreasing (completed_closes_after calendar (739941 * day) noon 0)
completed_closes_after-IsIncreasing_example =
    completed_closes_after-IsIncreasing calendar (739941 * day) noon 0 standard_time-IsEastern
