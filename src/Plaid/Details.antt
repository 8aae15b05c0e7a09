-- ===== src/Plaid/Details.antt =====
-- The texts that `classify_error` writes into a `Classification`: a poll's record accepts them.
use Prim.Native.Char.{code}
use Prim.Native.String.{◌++◌}
use networth.Prelude.{
  ℕ, Bool, true, false, ◌≡◌, refl, Option, none, some, String, List, [], ◌∷◌, str_eq, any,
  Bool-cases, inl, inr, not, ◌&&◌,
}
use networth.Model.Texts.{codes, is_nonempty, nonempty_or_absent, is_trimmed, ends_well, is_space}
use text.Mathlib.TextLemmas.{nil-append, cons-append}
use networth.Model.Item.{ItemState, healthy, degraded, needs_reauth, revoked}
use networth.Plaid.{
  code_states, no_transition_codes, lookup, provisional, classify_error, state_value, repr_optional,
  mapped_error,
}

abbrev pub starts_well : List ℕ → Bool
starts_well [] = false
starts_well (c ∷ _) = not (is_space c)

-- A text that is not empty and ends in no space.
pub EndsWell : String → Type 0
EndsWell s = (c : ℕ) → ends_well c (codes s) ≡ true

and_left : (a b : Bool) → (a && b) ≡ true → a ≡ true
and_left true b h = refl
and_left false b h = h

and_right : (a b : Bool) → (a && b) ≡ true → b ≡ true
and_right true b h = h
and_right false b h = cc

ends_well-codes : (c : ℕ) (a b : String) → EndsWell b → ends_well c (codes (a ++ b)) ≡ true
unfolding EndsWell ends_well
ends_well-codes c String.[] b h = rw (nil-append b) (h c)
ends_well-codes c (String.◌∷◌ x a) b h = rw (cons-append x a b) (ends_well-codes (code x) a b h)

pub EndsWell-append : (a b : String) → EndsWell b → EndsWell (a ++ b)
unfolding EndsWell
EndsWell-append a b h = λ c. ends_well-codes c a b h

pub EndsWell-nonempty : (s : String) → is_nonempty s ≡ true → EndsWell s
unfolding EndsWell is_nonempty is_trimmed ends_well
EndsWell-nonempty String.[] h = cc
EndsWell-nonempty (String.◌∷◌ x s) h =
    λ c. and_right (not (is_space (code x))) (ends_well (code x) (codes s)) h

starts_well-nonempty : (s : String) → is_nonempty s ≡ true → starts_well (codes s) ≡ true
unfolding is_nonempty is_trimmed
starts_well-nonempty String.[] h = cc
starts_well-nonempty (String.◌∷◌ x s) h =
    and_left (not (is_space (code x))) (ends_well (code x) (codes s)) h

-- A text in two parts that starts and ends in no space.
pub nonempty-append :
    (a b : String) → starts_well (codes a) ≡ true → EndsWell b → is_nonempty (a ++ b) ≡ true
unfolding EndsWell is_nonempty is_trimmed
nonempty-append String.[] b s h = cc
nonempty-append (String.◌∷◌ x a) b s h =
    rw (cons-append x a b, s, ends_well-codes (code x) a b h) refl

EndsWell-state_tail :
    (s : ItemState) → EndsWell (" maps to " ++ (state_value s ++ " (section 8.2)"))
unfolding EndsWell ends_well
EndsWell-state_tail healthy = λ c. refl
EndsWell-state_tail degraded = λ c. refl
EndsWell-state_tail needs_reauth = λ c. refl
EndsWell-state_tail revoked = λ c. refl

module _ (repr : String → String) (quoted : (s : String) → is_nonempty (repr s) ≡ true) where
  EndsWell-repr : (t : Option String) → EndsWell (repr_optional repr t)
  unfolding EndsWell ends_well
  EndsWell-repr none = λ c. refl
  EndsWell-repr (some t) = EndsWell-nonempty (repr t) (quoted t)

  -- The detail of a code's classification is a text that a poll's record accepts.
  mapped-nonempty :
      (error_code : String) (t : Option String) (s : Option ItemState)
      → is_nonempty error_code ≡ true
      → is_nonempty (mapped_error repr error_code t s).detail ≡ true
  unfolding is_space is_trimmed ends_well
  mapped-nonempty error_code t none h = nonempty-append "unrecognised code " _ refl (
      EndsWell-append (repr error_code) _ (
        EndsWell-append "; " _ (
          EndsWell-append (state_value (provisional t)) _
            (EndsWell-append " is provisional, chosen from error_type " _ (EndsWell-repr t)))))
  mapped-nonempty error_code t (some s) h =
      nonempty-append error_code _ (starts_well-nonempty error_code h) (EndsWell-state_tail s)

  -- The detail of an error's classification is a text that a poll's record accepts, if the code is one
  -- and `repr` only writes such texts.
  pub classify_error-detail :
      (error_code : Option String) (t : Option String)
      → nonempty_or_absent error_code ≡ true
      → is_nonempty (classify_error repr error_code t).detail ≡ true
  unfolding classify_error is_nonempty is_space
  classify_error-detail none t h = nonempty-append "error object carrying no code; " _ refl (
      EndsWell-append (state_value (provisional t)) _
        (EndsWell-append " is provisional, chosen from error_type " _ (EndsWell-repr t)))
  classify_error-detail (some error_code) t h =
      elim (Bool-cases (any (str_eq error_code) no_transition_codes)) [
        | inl e ↦ rw e (
            nonempty-append "recognised advance warning; not a state transition — the Item is not "
              "in an error state (section 8.2, F8)" refl (EndsWell-nonempty _ refl))
        | inr e ↦ rw e (mapped-nonempty error_code t (lookup error_code code_states) h)
      ]
