-- ===== src/Money/Rounding.antt =====
-- `to_minor_units` rounds to the nearest cent.
use networth.Prelude.{ℕ, ◌+◌, ◌*◌, ◌/◌, ◌%◌, ◌≤◌, ◌<◌, ◌≡◌, arith, ◌⊎◌, ◌∙◌, ap}
use native.Mathlib.Nat.{div-add-mod', mod-lt, add-mul, one-mul}
use networth.Prelude.Int.{ℤ, pos_part, neg_part}
use networth.Money.{half_even}

-- The integer m is n / d rounded: within half of a divisor, and even at a tie.
abbrev pub IsNearest : ℕ → ℕ → ℕ → Type 0
IsNearest n d m =
    (2 * n ≤ 2 * (m * d) + d)
    × (2 * (m * d) ≤ 2 * n + d)
    × ((2 * n ≡ 2 * (m * d) + d) ⊎ (2 * (m * d) ≡ 2 * n + d) → m % 2 ≡ 0)

pub half_even-IsNearest : (n d : ℕ) → 0 < d → IsNearest n d (half_even n d)
unfolding half_even
half_even-IsNearest n d h =
    let whole : n / d * d + n % d ≡ n = div-add-mod' n d in
    let small : n % d < d = mod-lt n h in
    let next : (n / d + 1) * d ≡ n / d * d + d =
      add-mul (n / d) 1 d ∙ ap (λ x. n / d * d + x) (one-mul d) in
    ground arith

-- The amount of money without its sign.
abbrev pub magnitude : ℤ → ℕ
magnitude v = pos_part v + neg_part v
