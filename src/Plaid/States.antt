-- ===== src/Plaid/States.antt =====
-- The states that `classify_error` can answer.
use networth.Prelude.{
  true, false, ◌≡◌, ◌≢◌, refl, subst, Option, none, some, String, List, [], ◌∷◌, str_eq, any,
  Bool-cases, Option-cases, inl, inr, All,
}
use networth.Model.Item.{ItemState, healthy, degraded, owner_actionable}
use networth.Plaid.{
  Classification, asks_owner_to_act, code_states, type_states, no_transition_codes, lookup,
  or_empty, provisional, classify_error, mapped_error,
}

-- A value that a table gives satisfies what all values of the table do.
lookup-All :
    (P : ItemState → Type 0) (key : String) (table : List (String × ItemState)) (s : ItemState)
    → All (λ e. P e.1) table
    → lookup key table ≡ some s
    → P s
unfolding lookup
lookup-All P key [] s h e = cc
lookup-All P key ((k, v) ∷ rest) s h e = elim (Bool-cases (str_eq key k)) [
  | inl same ↦ subst P (let e' : some v ≡ some s = (rw (lookup, same) at e) in cc) h.0
  | inr other ↦ lookup-All P key rest s h.1 (rw (lookup, other) at e)
]

provisional-degraded : (t : Option String) → provisional t ≡ degraded
unfolding provisional
provisional-degraded t = elim (Option-cases (lookup (or_empty t) type_states)) [
  | inl e ↦ rw e refl
  | inr (s, e) ↦ rw e (
      lookup-All (λ s. s ≡ degraded) (or_empty t) type_states s
        (refl, (refl, (refl, (refl, (refl, (refl, tt)))))) e)
]

-- What the classification of a present error may claim.
pub record IsCautious (c : Classification) : Type 0 where
  pub never_healthy : c.state ≢ some healthy
  pub observed : c.item_state_observed ≡ true
  pub unrecognised_degraded : c.recognised ≡ false → c.state ≡ some degraded
  pub actionable_recognised : asks_owner_to_act c.state ≡ true → c.recognised ≡ true

-- No code of the table is HEALTHY.
code_state-healthy : (error_code : String) → lookup error_code code_states ≢ some healthy
code_state-healthy error_code e =
    lookup-All (λ s. s ≢ healthy) error_code code_states healthy
      ((λ p. cc), ((λ p. cc), ((λ p. cc), ((λ p. cc), tt)))) e refl

degraded_quiet : asks_owner_to_act (some degraded) ≡ true → false ≡ true
unfolding owner_actionable
degraded_quiet h = h

mapped-IsCautious :
    (repr : String → String) (code : String) (t : Option String) (s : Option ItemState)
    → (s ≢ some healthy)
    → IsCautious (mapped_error repr code t s)
mapped-IsCautious repr code t none h = record {
  never_healthy = rw (provisional-degraded t) (λ e. cc);
  observed = refl;
  unrecognised_degraded = λ _. rw (provisional-degraded t) refl;
  actionable_recognised = rw (provisional-degraded t) degraded_quiet;
}
mapped-IsCautious repr code t (some s) h = record {
  never_healthy = h;
  observed = refl;
  unrecognised_degraded = λ e. cc;
  actionable_recognised = λ _. refl;
}

-- A present error is never HEALTHY and always an observation; one that is not recognised makes the
-- Item DEGRADED, so only a recognised error asks the owner to act.
pub classify_error-IsCautious :
    (repr : String → String) (code t : Option String) → IsCautious (classify_error repr code t)
unfolding classify_error
classify_error-IsCautious repr none t = record {
  never_healthy = rw (provisional-degraded t) (λ e. cc);
  observed = refl;
  unrecognised_degraded = λ _. rw (provisional-degraded t) refl;
  actionable_recognised = rw (provisional-degraded t) degraded_quiet;
}
classify_error-IsCautious repr (some code) t =
    elim (Bool-cases (any (str_eq code) no_transition_codes)) [
      | inl e ↦ rw e (record {
        never_healthy = λ p. cc;
        observed = refl;
        unrecognised_degraded = λ p. cc;
        actionable_recognised = λ _. refl;
      })
      | inr e ↦ rw e (mapped-IsCautious repr code t _ (code_state-healthy code))
    ]
