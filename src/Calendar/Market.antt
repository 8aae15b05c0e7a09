-- ===== src/Calendar/Market.antt =====
-- networth/staleness.py: `UsEquityMarketCalendar`, over the time zone of Calendar/Zone.antt.
pub mod Order
pub mod Latest
pub mod After
use networth.Prelude.{
  ℕ, zero, suc, ◌+◌, ◌-◌, ◌*◌, Bool, ◌&&◌, ◌||◌, Option, none, some, List, [], ◌∷◌, ◌++◌, leb, ltb,
  if◌then◌else◌, contains, any,
}
use networth.Prelude.Result.{Result, ok, err, date_overflow}
use networth.Calendar.Dates.{hour, weekday, year_of}
use networth.Calendar.Holidays.{regular_holidays, regular_early_closes}
use networth.Calendar.Zone.{Zone}

abbrev pub early_close : ℕ
early_close = 13 * hour

abbrev pub regular_close : ℕ
regular_close = 16 * hour

pub record Calendar : Type 0 where
  pub zone : Zone
  pub extra_holidays : List ℕ
  pub extra_early_closes : List ℕ

-- `__init__`: no date may be both an extra holiday and an extra early close.
unfoldable pub new_calendar : Zone → List ℕ → List ℕ → Option Calendar
new_calendar z holidays early_closes =
    if any (λ d. contains d early_closes) holidays
    then none
    else some (record { zone = z; extra_holidays = holidays; extra_early_closes = early_closes })

-- A date on which the market does not open.
unfoldable pub is_closed : Calendar → ℕ → Bool
is_closed c d =
    leb 5 (weekday d) || contains d (regular_holidays (year_of d)) || contains d c.extra_holidays

unfoldable pub close_time : Calendar → ℕ → ℕ
close_time c d =
    if contains d (regular_early_closes (year_of d)) || contains d c.extra_early_closes
    then early_close
    else regular_close

unfoldable pub session_close : Calendar → ℕ → Option ℕ
session_close c d = if is_closed c d then none else some (c.zone.instant d (close_time c d))

-- A close whose grace has elapsed by `at`.
abbrev pub completed : ℕ → ℕ → Option ℕ → Option ℕ
completed grace at none = none
completed grace at (some close) = if leb (close + grace) at then some close else none

-- The loop of `latest_completed_close`, at the date `candidate`. The date type has no day before
-- ordinal 1: `candidate -= timedelta(days=1)` raises OverflowError there.
unfoldable pub latest_from : Calendar → ℕ → ℕ → ℕ → Result ℕ
latest_from c grace at zero = err date_overflow
latest_from c grace at (suc d) =
    let earlier = latest_from c grace at d in
    elim (completed grace at (session_close c (suc d))) [ some close ↦ ok close | none ↦ earlier ]

unfoldable pub latest_completed_close : Calendar → ℕ → ℕ → Result ℕ
unfolding latest_from
latest_completed_close c at grace = latest_from c grace at (c.zone.date_at at)

-- The test of the loop of `completed_closes_after`, as the closes that it appends.
unfoldable pub closes_on : Calendar → ℕ → ℕ → ℕ → Option ℕ → List ℕ
closes_on c after through grace none = []
closes_on c after through grace (some close) =
    if ltb after close && leb (close + grace) through then close ∷ [] else []

-- The loop of `completed_closes_after`, from `candidate` on for the dates that are left.
unfoldable pub closes_from : Calendar → ℕ → ℕ → ℕ → ℕ → ℕ → List ℕ
unfolding closes_on
closes_from c after through grace candidate zero = []
closes_from c after through grace candidate (suc left) =
    closes_on c after through grace (session_close c candidate)
    ++ closes_from c after through grace (candidate + 1) left

unfoldable pub completed_closes_after : Calendar → ℕ → ℕ → ℕ → List ℕ
unfolding closes_from
completed_closes_after c after through grace =
    let first_day = c.zone.date_at after in
    let last_day = c.zone.date_at through in
    if leb through after
    then []
    else closes_from c after through grace first_day (last_day + 1 - first_day)
