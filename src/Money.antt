-- ===== src/Money.antt =====
-- networth/model/manual.py: `to_minor_units`. A finite `Decimal` is a signed coefficient and the number
-- of its decimal places; one with a positive exponent is written with its zeros and no places. The
-- precision of the decimal context, 28 digits, is not modelled: amounts have fewer.
pub mod Rounding
use networth.Prelude.{
  ℕ, zero, suc, ◌+◌, ◌*◌, ◌/◌, ◌%◌, Bool, ltb, ◌==◌, if◌then◌else◌, String, str_eq, Option, none,
  some,
}
use networth.Prelude.Int.{ℤ, pos, negsuc, neg_part}
use networth.Prelude.Result.{Result, ok, err, invalid_valuation}

pub record Decimal : Type 0 where
  pub coefficient : ℤ
  pub places : ℕ

abbrev pub ten_to : ℕ → ℕ
ten_to zero = 1
ten_to (suc k) = 10 * ten_to k

-- `n / d`, rounded to the nearest integer, and to the even one at a tie.
unfoldable pub half_even : ℕ → ℕ → ℕ
half_even n d =
    let q = n / d in
    let r = n % d in
    if ltb (r + r) d then q else if ltb d (r + r) then q + 1 else if q % 2 == 0 then q else q + 1

abbrev pub negate : ℕ → ℤ
negate zero = pos 0
negate (suc n) = negsuc n

unfoldable pub scaled : ℕ → ℕ → ℤ → ℤ
unfolding half_even
scaled scale places (pos n) = pos (half_even (n * scale) (ten_to places))
scaled scale places (negsuc n) = negate (half_even (suc n * scale) (ten_to places))

-- `_MINOR_UNITS_PER_UNIT.get`
unfoldable pub minor_units_per_unit : String → Option ℕ
minor_units_per_unit currency = if str_eq currency "USD" then some 100 else none

abbrev pub scaled_by : Decimal → Option ℕ → Result ℤ
scaled_by amount none = err invalid_valuation
scaled_by amount (some scale) = ok (scaled scale amount.places amount.coefficient)

-- `to_minor_units`
unfoldable pub to_minor_units : Decimal → String → Result ℤ
unfolding scaled minor_units_per_unit
to_minor_units amount currency = scaled_by amount (minor_units_per_unit currency)
