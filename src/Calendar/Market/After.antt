-- ===== src/Calendar/Market/After.antt =====
-- `completed_closes_after` lists exactly the completed closes after an instant.
use networth.Prelude.{
  ℕ, zero, suc, ◌+◌, ◌-◌, ◌≤◌, ◌<◌, ◌≡◌, ◌↔◌, refl, Option, none, some, List, [], ◌∷◌, ◌++◌, arith,
  inl, inr, Bool-cases, leb, length, length-append, In, In-append_left, In-append_right,
  In-append_cases, All, All-of_In, nil_of_no_member, lt→ltb, le→leb, false,
}
use native.Mathlib.Decide.{ℕ_discrete}
use native.Mathlib.Nat.{le_refl}
use networth.Prelude.Result.{ok}
use networth.Calendar.Zone.{IsEastern}
use networth.Calendar.Market.{
  Calendar, session_close, closes_on, closes_from, completed_closes_after, latest_completed_close,
}
use networth.Calendar.Market.Order.{date-le, date-ge, session_close_lt}
use networth.Calendar.Market.Latest.{Completed, latest_completed_close_newest}

-- Chronological order, with no close twice.
abbrev pub IsIncreasing : List ℕ → Type 0
IsIncreasing [] = Unit
IsIncreasing (x ∷ xs) = All (λ y. x < y) xs × IsIncreasing xs

module _ (c : Calendar) (after through grace : ℕ) where
  -- A completed session that closed after `after`.
  pub record Later (d close : ℕ) : Type 0 where
    pub completed : Completed c grace through d close
    pub later : after < close

  closes_on_sound :
      (o : Option ℕ) (a : ℕ)
      → In a (closes_on c after through grace o)
      → (o ≡ some a) × (after < a) × (a + grace ≤ through)
  unfolding closes_on
  closes_on_sound none a m = absurd m
  closes_on_sound (some b) a m = ground arith

  closes_on_complete :
      (a : ℕ) → after < a → a + grace ≤ through → In a (closes_on c after through grace (some a))
  unfolding closes_on
  closes_on_complete a p q = rw (lt→ltb _ _ p, le→leb _ _ q) (inl refl)

  length-closes_on : (o : Option ℕ) → length (closes_on c after through grace o) ≤ 1
  unfolding closes_on
  length-closes_on o = ground arith

  length-closes_from : (d left : ℕ) → length (closes_from c after through grace d left) ≤ left
  unfolding closes_from
  length-closes_from d zero = omega arith
  length-closes_from d (suc left) = omega (
    arith,
    length-append (closes_on c after through grace (session_close c d))
        (closes_from c after through grace (d + 1) left),
    length-closes_on (session_close c d),
    length-closes_from (d + 1) left,
  )

  closes_from_sound :
      (d left a : ℕ)
      → In a (closes_from c after through grace d left)
      → (e : ℕ) × (d ≤ e) × Later e a
  unfolding closes_from
  closes_from_sound d zero a m = absurd m
  closes_from_sound d (suc left) a m =
      elim (In-append_cases a (closes_on c after through grace (session_close c d)) _ m) [
        | inl here ↦
            let (shown, late, done) = closes_on_sound (session_close c d) a here in
            (
              d,
              le_refl d,
              record { completed = record { session = shown; elapsed = done }; later = late },
            )
        | inr there ↦ let (e, le, h) = closes_from_sound (d + 1) left a there in (e, omega arith, h)
      ]

  closes_from_complete :
      (d left e a : ℕ)
      → d ≤ e
      → e < d + left
      → Later e a
      → In a (closes_from c after through grace d left)
  unfolding closes_from
  closes_from_complete d zero e a p q h = absurd (omega arith)
  closes_from_complete d (suc left) e a p q h = elim (ℕ_discrete d e) [
    | yes same ↦
        In-append_left a (closes_on c after through grace (session_close c d)) _
          (rw (same, h.completed.session) (closes_on_complete a h.later h.completed.elapsed))
    | no other ↦
        In-append_right a (closes_on c after through grace (session_close c d)) _
          (closes_from_complete (d + 1) left e a (omega arith) (omega arith) h)
  ]

  -- At most one close for each New York date from the one to the other.
  pub length-completed_closes_after :
      length (completed_closes_after c after through grace)
      ≤ c.zone.date_at through + 1 - c.zone.date_at after
  unfolding completed_closes_after
  length-completed_closes_after = ground (
    arith,
    length-closes_from (c.zone.date_at after) (c.zone.date_at through + 1 - c.zone.date_at after),
  )

  module _ (east : IsEastern c.zone) where
    -- The list holds an instant exactly if it is the close of a session after `after` whose grace
    -- has elapsed by `through`. The time zone is New York's.
    pub In-completed_closes_after :
        (a : ℕ) → In a (completed_closes_after c after through grace) ↔ ((d : ℕ) × Later d a)
    unfolding completed_closes_after
    In-completed_closes_after a = (
      λ m. elim (Bool-cases (leb through after)) [
        | inl none_left ↦ absurd (rw none_left at m)
        | inr some_left ↦ let (e, _, h) = closes_from_sound _ _ a (rw some_left at m) in (e, h)
      ],
      λ (d, h).
          let past : leb through after ≡ false = ground (arith, h.later, h.completed.elapsed) in
          rw past (
            closes_from_complete (c.zone.date_at after)
              (c.zone.date_at through + 1 - c.zone.date_at after) d a
              (date-ge c east d after h.completed.session (omega (arith, h.later)))
              (omega (
                arith,
                date-ge c east d after h.completed.session (omega (arith, h.later)),
                date-le c east d through h.completed.session (omega (arith, h.completed.elapsed)),
              ))
              h),
    )

    closes_on-append-IsIncreasing :
        (o : Option ℕ) (rest : List ℕ)
        → ((a : ℕ) → o ≡ some a → All (λ y. a < y) rest)
        → IsIncreasing rest
        → IsIncreasing (closes_on c after through grace o ++ rest)
    unfolding closes_on
    closes_on-append-IsIncreasing none rest f h = h
    closes_on-append-IsIncreasing (some a) rest f h = ground (arith, f a refl)

    closes_from-IsIncreasing :
        (d left : ℕ) → IsIncreasing (closes_from c after through grace d left)
    unfolding closes_from
    closes_from-IsIncreasing d zero = tt
    closes_from-IsIncreasing d (suc left) =
        closes_on-append-IsIncreasing (session_close c d)
          (closes_from c after through grace (d + 1) left)
          (λ a shown.
            All-of_In (λ y. a < y) _
              λ b m.
                let (e, le, h) = closes_from_sound (d + 1) left b m in
                session_close_lt c east d e shown h.completed.session (omega arith))
          (closes_from-IsIncreasing (d + 1) left)

    -- The closes are listed in chronological order, none twice. The time zone is New York's.
    pub completed_closes_after-IsIncreasing :
        IsIncreasing (completed_closes_after c after through grace)
    unfolding completed_closes_after
    completed_closes_after-IsIncreasing = elim (Bool-cases (leb through after)) [
      | inl none_left ↦ rw none_left tt
      | inr some_left ↦ rw some_left (closes_from-IsIncreasing _ _)
    ]

    -- A clock at or past the newest completed close has no completed close after it.
    pub completed_closes_after-latest :
        (r : ℕ)
        → latest_completed_close c through grace ≡ ok r
        → r ≤ after
        → completed_closes_after c after through grace ≡ []
    completed_closes_after-latest r h le = nil_of_no_member _ λ a m.
        let (d, l) = (In-completed_closes_after a).0 m in
        let newest = (latest_completed_close_newest c grace through east r h).1 d a l.completed in
        omega (arith, l.later)
