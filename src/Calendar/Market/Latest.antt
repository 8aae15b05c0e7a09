-- ===== src/Calendar/Market/Latest.antt =====
-- `latest_completed_close` returns the newest close whose grace has elapsed.
use networth.Prelude.{
  ℕ, zero, suc, ◌+◌, ◌≤◌, ◌<◌, ◌≡◌, none, some, arith, inl, inr, Option-cases, subst,
}
use native.Mathlib.Decide.{dec_le, dec_lt}
use networth.Prelude.Result.{ok}
use networth.Calendar.Zone.{IsEastern}
use networth.Calendar.Market.{
  Calendar, session_close, completed, latest_from, latest_completed_close,
}
use networth.Calendar.Market.Order.{date-le, session_close_lt}

-- A session whose close, with its grace, has passed by `at`.
pub record Completed (c : Calendar) (grace at d close : ℕ) : Type 0 where
  pub session : session_close c d ≡ some close
  pub elapsed : close + grace ≤ at

module _ (c : Calendar) (grace at : ℕ) where
  Completed_of :
      (d : ℕ) {close : ℕ}
      → completed grace at (session_close c d) ≡ some close
      → Completed c grace at d close
  Completed_of d h = elim (Option-cases (session_close c d)) [
    | inl shut ↦ ground (arith, shut)
    | inr (a, e) ↦ ground (arith, e)
  ]

  completed-some :
      (d : ℕ) {close : ℕ}
      → Completed c grace at d close
      → completed grace at (session_close c d) ≡ some close
  completed-some d h = rw h.session (ground (arith, h.elapsed))

  -- `r` is the close of the latest date up to `k` that has a completed session.
  abbrev LatestUpTo : ℕ → ℕ → Type 0
  LatestUpTo k r =
      (d : ℕ) × Completed c grace at d r × ((e a : ℕ) → e ≤ k → Completed c grace at e a → e ≤ d)

  LatestUpTo-step :
      (k : ℕ) {r : ℕ}
      → completed grace at (session_close c (suc k)) ≡ none
      → LatestUpTo k r
      → LatestUpTo (suc k) r
  LatestUpTo-step k shut (d, done, newest) = (
    d,
    done,
    λ e a le h. elim (dec_le e k) [
      | yes below ↦ newest e a below h
      | no above ↦
          let same : e ≡ suc k = omega arith in absurd (cc (completed-some e h, shut, same))
    ],
  )

  latest_from-LatestUpTo : (k : ℕ) {r : ℕ} → latest_from c grace at k ≡ ok r → LatestUpTo k r
  unfolding latest_from
  latest_from-LatestUpTo zero h = cc
  latest_from-LatestUpTo (suc k) {r} h =
      elim (Option-cases (completed grace at (session_close c (suc k)))) [
        | inl shut ↦ LatestUpTo-step k shut (latest_from-LatestUpTo k (ground (arith, shut, h)))
        | inr (a, e) ↦
            let same : a ≡ r = ground (arith, e, h) in
            (
              suc k,
              subst (λ x. Completed c grace at (suc k) x) same (Completed_of (suc k) e),
              λ x b le _. le,
            )
      ]

  -- The loop ends with a close if any date from 1 to `k` has a completed session.
  latest_from_total :
      (k d a : ℕ)
      → 0 < d
      → d ≤ k
      → Completed c grace at d a
      → (r : ℕ) × (latest_from c grace at k ≡ ok r)
  unfolding latest_from
  latest_from_total zero d a p le h = absurd (omega arith)
  latest_from_total (suc k) d a p le h =
      elim (Option-cases (completed grace at (session_close c (suc k)))) [
        | inr (b, e) ↦ (b, ground (arith, e))
        | inl shut ↦ elim (dec_le d k) [
          | yes below ↦
              let (r, found) = latest_from_total k d a p below h in (r, ground (arith, shut, found))
          | no above ↦
              let same : d ≡ suc k = omega arith in absurd (cc (completed-some d h, shut, same))
        ]
      ]

  module _ (east : IsEastern c.zone) where
    -- The result is the close of some date, its grace has elapsed by `at`, and no session whose
    -- grace has elapsed by `at` closes later. The time zone is New York's.
    pub latest_completed_close_newest :
        (r : ℕ)
        → latest_completed_close c at grace ≡ ok r
        → ((d : ℕ) × Completed c grace at d r) × ((e a : ℕ) → Completed c grace at e a → a ≤ r)
    unfolding latest_completed_close
    latest_completed_close_newest r h =
        let (d, done, newest) = latest_from-LatestUpTo (c.zone.date_at at) h in
        (
          (d, done),
          λ e a done'.
              let le : e ≤ d =
                newest e a (date-le c east e at done'.session (omega (arith, done'.elapsed)))
                  done' in
              elim (dec_lt e d) [
                | yes before ↦
                    omega (arith, session_close_lt c east e d done'.session done.session before)
                | no same ↦
                    let eq : e ≡ d = omega arith in
                    let closes : a ≡ r = ground (arith, done'.session, done.session, eq) in
                    omega (arith, closes)
              ],
        )

    -- The search ends with a close, not with OverflowError, if any session from the first date on
    -- has its grace elapsed by `at`. The time zone is New York's.
    pub latest_completed_close_total :
        (d a : ℕ)
        → 0 < d
        → Completed c grace at d a
        → (r : ℕ) × (latest_completed_close c at grace ≡ ok r)
    unfolding latest_completed_close
    latest_completed_close_total d a p h =
        latest_from_total (c.zone.date_at at) d a p
          (date-le c east d at h.session (omega (arith, h.elapsed))) h
