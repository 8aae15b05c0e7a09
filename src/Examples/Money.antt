-- ===== src/Examples/Money.antt =====
-- Half a cent, rounded to an even number of cents.
use networth.Prelude.{◌≡◌, refl}
use networth.Prelude.Int.{negsuc}
use networth.Prelude.Result.{ok}
use networth.Money.{Decimal, to_minor_units}

abbrev tied : Decimal
tied = record { coefficient = negsuc 1234564; places = 3 }

tied_cents : to_minor_units tied "USD" ≡ ok (negsuc 123455)
unfolding to_minor_units
tied_cents = refl
