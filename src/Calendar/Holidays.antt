-- ===== src/Calendar/Holidays.antt =====
-- networth/staleness.py: the recurring New York Stock Exchange holidays and early closes of a year,
-- as dates. A `frozenset` of dates is a list that is only asked for membership.
use networth.Prelude.{
  ℕ, ◌+◌, ◌-◌, ◌*◌, ◌/◌, ◌%◌, ◌≡◌, refl, Bool, true, false, not, ◌&&◌, Option, none, some, List, [],
  ◌∷◌, ◌++◌, ◌==◌, leb, ltb, if◌then◌else◌, contains,
}
use networth.Calendar.Dates.{ordinal, weekday}

-- `_nth_weekday`
unfoldable pub nth_weekday : ℕ → ℕ → ℕ → ℕ → ℕ
unfolding weekday
nth_weekday year month wanted occurrence =
    let first = ordinal year month 1 in
    first + ((wanted + 7 - weekday first) % 7 + 7 * (occurrence - 1))

-- `_last_weekday`
unfoldable pub last_weekday : ℕ → ℕ → ℕ → ℕ
unfolding weekday
last_weekday year month wanted =
    let next_month = if month == 12 then ordinal (year + 1) 1 1 else ordinal year (month + 1) 1 in
    let last = next_month - 1 in last - (weekday last + 7 - wanted) % 7

-- `_observed_fixed`
unfoldable pub observed_fixed : ℕ → Bool → Option ℕ
unfolding weekday
observed_fixed d observe_saturday =
    if weekday d == 5
    then (if observe_saturday then some (d - 1) else none)
    else if weekday d == 6
    then some (d + 1)
    else some d

-- `_easter_sunday`. No subtraction goes below 0, so each is exact.
unfoldable pub easter_sunday : ℕ → ℕ
easter_sunday year =
    let a = year % 19 in
    let b = year / 100 in
    let c = year % 100 in
    let d = b / 4 in
    let e = b % 4 in
    let f = (b + 8) / 25 in
    let g = (b + 1 - f) / 3 in
    let h = (19 * a + b + 15 - d - g) % 30 in
    let i = c / 4 in
    let k = c % 4 in
    let ell = (32 + 2 * e + 2 * i - h - k) % 7 in
    let m = (a + 11 * h + 22 * ell) / 451 in
    let n = h + ell + 114 - 7 * m in ordinal year (n / 31) (n % 31 + 1)

abbrev pub present : Option ℕ → List ℕ
present none = []
present (some d) = d ∷ []

-- `_regular_holidays`
unfoldable pub regular_holidays : ℕ → List ℕ
unfolding nth_weekday last_weekday observed_fixed easter_sunday
regular_holidays year =
    nth_weekday year 1 0 3
    ∷ nth_weekday year 2 0 3
    ∷ (easter_sunday year - 2)
    ∷ last_weekday year 5 0
    ∷ nth_weekday year 9 0 1
    ∷ nth_weekday year 11 3 4
    ∷ (present (observed_fixed (ordinal year 7 4) true)
        ++ (present (observed_fixed (ordinal year 12 25) true)
            ++ (present (observed_fixed (ordinal year 1 1) false)
                ++ (if leb 2022 year
                    then present (observed_fixed (ordinal year 6 19) true)
                    else []))))

abbrev pub keep_sessions : List ℕ → List ℕ → List ℕ
keep_sessions holidays [] = []
keep_sessions holidays (d ∷ ds) =
    let rest = keep_sessions holidays ds in
    if ltb (weekday d) 5 && not (contains d holidays) then d ∷ rest else rest

-- `_regular_early_closes`
unfoldable pub regular_early_closes : ℕ → List ℕ
unfolding nth_weekday weekday
regular_early_closes year =
    keep_sessions (regular_holidays year)
      (ordinal year 7 3 ∷ (nth_weekday year 11 3 4 + 1) ∷ ordinal year 12 24 ∷ [])

easter_2026 : easter_sunday 2026 ≡ ordinal 2026 4 5
unfolding easter_sunday ordinal
easter_2026 = refl

independence_day_2026 : contains (ordinal 2026 7 3) (regular_holidays 2026) ≡ true
unfolding regular_holidays ordinal
independence_day_2026 = refl

early_closes_2026 : regular_early_closes 2026 ≡ ordinal 2026 11 27 ∷ ordinal 2026 12 24 ∷ []
unfolding regular_early_closes regular_holidays ordinal
early_closes_2026 = refl
