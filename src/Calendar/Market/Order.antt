-- ===== src/Calendar/Market/Order.antt =====
-- Session closes follow the order of their dates.
use networth.Prelude.{ℕ, ◌+◌, ◌*◌, ◌≤◌, ◌<◌, ◌≡◌, some, arith}
use networth.Calendar.Dates.{hour, day}
use networth.Calendar.Zone.{IsEastern}
use networth.Calendar.Market.{Calendar, session_close, close_time}

module _ (c : Calendar) where
  close_time_range : (d : ℕ) → (13 * hour ≤ close_time c d) × (close_time c d ≤ 16 * hour)
  unfolding close_time
  close_time_range d = ground arith

  pub session_close-eq :
      (d : ℕ) {close : ℕ}
      → session_close c d ≡ some close
      → close ≡ c.zone.instant d (close_time c d)
  unfolding session_close
  session_close-eq d h = ground arith

  module _ (east : IsEastern c.zone) where
    -- The close of a date lies on that date, from 17:00 to 21:00 UTC.
    pub session_close_window :
        (d : ℕ) {close : ℕ}
        → session_close c d ≡ some close
        → (d * day + 17 * hour ≤ close) × (close ≤ d * day + 21 * hour)
    session_close_window d h = omega (
      arith,
      session_close-eq d h,
      close_time_range d,
      east.instant_low d (close_time c d),
      east.instant_high d (close_time c d),
    )

    -- A close at or before an instant is on a date at or before that instant's New York date.
    pub date-le :
        (d : ℕ) {close : ℕ} (at : ℕ)
        → session_close c d ≡ some close
        → close ≤ at
        → d ≤ c.zone.date_at at
    date-le d at h le = omega (arith, session_close_window d h, east.date_high at)

    pub date-ge :
        (d : ℕ) {close : ℕ} (at : ℕ)
        → session_close c d ≡ some close
        → at ≤ close
        → c.zone.date_at at ≤ d
    date-ge d at h le = omega (arith, session_close_window d h, east.date_low at)

    pub session_close_lt :
        (d e : ℕ) {a b : ℕ}
        → session_close c d ≡ some a
        → session_close c e ≡ some b
        → d < e
        → a < b
    session_close_lt d e p q lt = omega (arith, session_close_window d p, session_close_window e q)
