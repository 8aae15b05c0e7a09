-- ===== src/Calendar/Dates.antt =====
-- The part of `datetime` that networth/staleness.py uses. A date is its proleptic Gregorian
-- ordinal (`date.toordinal`, day 1 is 0001-01-01); an instant is a number of microseconds, with
-- midnight UTC of the date `d` at `d * day`; a `timedelta` that is not negative is microseconds too.
use networth.Prelude.{
  ℕ, zero, suc, ◌+◌, ◌-◌, ◌*◌, ◌/◌, ◌%◌, Bool, true, false, ◌||◌, ◌≡◌, refl, ◌==◌, if◌then◌else◌,
}

abbrev pub hour : ℕ
hour = 3600000000

abbrev pub day : ℕ
day = 86400000000

unfoldable pub is_leap : ℕ → Bool
is_leap y = if y % 4 == 0 then (if y % 100 == 0 then y % 400 == 0 else true) else false

unfoldable pub days_before_year : ℕ → ℕ
days_before_year y = (y - 1) * 365 + (y - 1) / 4 - (y - 1) / 100 + (y - 1) / 400

unfoldable pub days_in_month : ℕ → ℕ → ℕ
unfolding is_leap
days_in_month y m = if m == 2 then 28 + (if is_leap y then 1 else 0) else 30 + (m + m / 8) % 2

-- The days of the first `k` months.
unfoldable pub days_of_months : ℕ → ℕ → ℕ
unfolding days_in_month
days_of_months y zero = 0
days_of_months y (suc k) = days_of_months y k + days_in_month y (suc k)

-- `date(y, m, d).toordinal()`
unfoldable pub ordinal : ℕ → ℕ → ℕ → ℕ
unfolding days_before_year days_of_months
ordinal y m d = days_before_year y + days_of_months y (m - 1) + d

-- Monday is 0.
unfoldable pub weekday : ℕ → ℕ
weekday o = (o + 6) % 7

-- `date.fromordinal(o).year`
unfoldable pub year_of : ℕ → ℕ
year_of o =
    let n = o - 1 in
    let n400 = n / 146097 in
    let r400 = n % 146097 in
    let n100 = r400 / 36524 in
    let r100 = r400 % 36524 in
    let n4 = r100 / 1461 in
    let n1 = r100 % 1461 / 365 in
    let y = n400 * 400 + n100 * 100 + n4 * 4 + n1 in if n1 == 4 || n100 == 4 then y else y + 1

ordinal_epoch : ordinal 1970 1 1 ≡ 719163
unfolding ordinal
ordinal_epoch = refl

year_of_leap_end : year_of (ordinal 2024 12 31) ≡ 2024
unfolding year_of ordinal
year_of_leap_end = refl

weekday_thanksgiving : weekday (ordinal 2026 11 26) ≡ 3
unfolding weekday ordinal
weekday_thanksgiving = refl
