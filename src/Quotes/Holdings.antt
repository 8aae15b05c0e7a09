-- ===== src/Quotes/Holdings.antt =====
-- networth/model/manual.py: `EquityHolding` and its value at a quote.
use networth.Prelude.{ℕ, ◌+◌, Bool, not, some, String, str_eq, ltb}
use networth.Prelude.Int.{neg_part, ◌*ℤ◌, ◌==ℤ◌, pos}
use networth.Prelude.Result.{Result, ok, ◌>>=◌, ◌>>◌, raise_if, invalid_valuation}
use networth.Model.Texts.{is_nonempty}
use networth.Model.Figure.{SourcedFigure, new_figure}
use networth.Money.{Decimal, ten_to, to_minor_units}

abbrev pub quote_as_of : String
quote_as_of = "QUOTE_AS_OF"

-- `Quote` and `EquityHolding`; their symbols are normalized tickers
pub record Quote : Type 0 where
  pub symbol : String
  pub price : Decimal
  pub currency : String
  pub as_of : ℕ

pub record EquityHolding : Type 0 where
  pub symbol : String
  pub shares : Decimal
  pub currency : String
  pub set_on : ℕ

abbrev pub is_negative : Decimal → Bool
is_negative d = ltb 0 (neg_part d.coefficient)

-- `EquityHolding.__post_init__`, on a normalized symbol
unfoldable pub new_holding : EquityHolding → Result EquityHolding
new_holding h = do
  raise_if (is_negative h.shares) invalid_valuation
  raise_if (not (is_nonempty h.currency)) invalid_valuation
  ok h

-- `Decimal.__mul__`
abbrev pub product : Decimal → Decimal → Decimal
product a b = record { coefficient = a.coefficient *ℤ b.coefficient; places = a.places + b.places }

-- `Decimal.__eq__`, of the numbers and not of their spellings
abbrev pub same_decimal : Decimal → Decimal → Bool
same_decimal a b = a.coefficient *ℤ pos (ten_to b.places) ==ℤ b.coefficient *ℤ pos (ten_to a.places)

-- `EquityHolding.value_with`
unfoldable pub value_with : EquityHolding → Quote → Result SourcedFigure
value_with h q = do
  raise_if (not (str_eq q.symbol h.symbol)) invalid_valuation
  raise_if (not (str_eq q.currency h.currency)) invalid_valuation
  cents ← to_minor_units (product h.shares q.price) h.currency
  new_figure (record {
    value_minor = cents;
    currency = h.currency;
    as_of = some q.as_of;
    source_clock = quote_as_of;
  })
