-- ===== src/Prelude/Result.antt =====
-- The outcome of code that may raise. `Error` names each exception by the check that raises it;
-- messages are left out.
use Prim.Native.String.{String}
use mathlib.Core.Path.{◌≡◌, refl}
use mathlib.Core.Logic.{◌⊎◌, inl, inr}
use mathlib.Core.Bool.{Bool, true, false}

pub data Error : Type 0 where
  -- ValueError of a record's `__post_init__`, by the record
  invalid_figure invalid_age invalid_counts invalid_draft invalid_assessment invalid_item : Error
  invalid_update invalid_observation invalid_account invalid_alert invalid_slot invalid_valuation :
      Error
  -- OverflowError of the date type
  date_overflow : Error
  -- the named exceptions
  policy_mismatch static_without_clock snapshot_input not_a_revision query_error : Error
  item_not_found alert_already_open alert_not_found alert_value future_clock : Error
  stored_data foreign_key observation_conflict item_budget schedule_state snapshot_conflict
        run_not_successful cycle_alert_input no_transaction invalid_record manual_quote_input :
      Error
  -- an exception of code outside the model, by the name of its type
  raised_outside : String → Error

-- The call raised, or it returned.
pub data Result {ℓ} (R : Type ℓ) : Type ℓ where
  err : Error → Result R
  ok : R → Result R

-- `if c: raise e`
abbrev pub raise_if : Bool → Error → Result (Unit {0})
raise_if false _ = ok tt
raise_if true e = err e

-- The statements after a call run on what it returned, and not at all when it raised.
infixl 5 ◌>>=◌ ◌>>◌
abbrev pub ◌>>=◌ {ℓ κ} : {R : Type ℓ} {S : Type κ} → Result R → (R → Result S) → Result S
err raised >>= _ = err raised
ok returned >>= rest = rest returned

abbrev pub ◌>>◌ {ℓ} : {S : Type ℓ} → Result (Unit {0}) → Result S → Result S
check >> rest = check >>= λ _. rest

-- A block that returns has a first call that returned, and a rest that returned on its value.
pub >>=-eq-ok {ℓ κ} :
    {R : Type ℓ} {S : Type κ} {result : S} (call : Result R) (rest : R → Result S)
    → (call >>= rest) ≡ ok result
    → (returned : R) × (call ≡ ok returned) × (rest returned ≡ ok result)
>>=-eq-ok (err raised) rest returns = cc
>>=-eq-ok (ok returned) rest returns = (returned, refl, returns)

pub ok-injective {ℓ} : {A : Type ℓ} {a b : A} → ok a ≡ ok b → a ≡ b
ok-injective h = cc

pub Result-cases {ℓ} :
    {A : Type ℓ} (r : Result A) → ((e : Error) × (r ≡ err e)) ⊎ ((a : A) × (r ≡ ok a))
Result-cases (ok a) = inr (a, refl)
Result-cases (err e) = inl (e, refl)

pub >>=-assoc {ℓ κ μ} :
    {A : Type ℓ} {B : Type κ} {C : Type μ} (m : Result A) (f : A → Result B) (g : B → Result C)
    → (m >>= f >>= g) ≡ (m >>= λ a. f a >>= g)
>>=-assoc (ok a) f g = refl
>>=-assoc (err e) f g = refl

-- A guard passed if the statements after it returned.
pub raise_if-eq-ok {ℓ} :
    {S : Type ℓ} {result : S} (refuse : Bool) (e : Error) (rest : Result S)
    → (raise_if refuse e >> rest) ≡ ok result
    → rest ≡ ok result
raise_if-eq-ok false e rest returns = returns
raise_if-eq-ok true e rest returns = cc

pub raise_if-false {ℓ} :
    {S : Type ℓ} {result : S} (refuse : Bool) (e : Error) (rest : Result S)
    → (raise_if refuse e >> rest) ≡ ok result
    → refuse ≡ false
raise_if-false false e rest returns = refl
raise_if-false true e rest returns = cc
