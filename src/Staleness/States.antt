-- ===== src/Staleness/States.antt =====
-- What the states of an assessment say about the source clock.
use networth.Prelude.{
  ℕ, ◌≤◌, ◌<◌, ◌≡◌, ◌↔◌, ◌∙◌, inl, inr, refl, sym, Bool, true, false, Option, none, some, length,
  arith, Bool-cases, Option-cases, ap, if◌then◌else◌, subst,
}
use networth.Prelude.Result.{ok, >>=-eq-ok}
use networth.Calendar.Zone.{IsEastern}
use networth.Calendar.Market.{Calendar, completed_closes_after}
use networth.Model.Item.{ItemHealth, is_some}
use networth.Model.Figure.{same}
use networth.Model.Observation.{ObservationDraft}
use networth.Model.Freshness.{
  FreshnessPolicy, manual_static, requires_item, FreshnessAssessment, new_assessment,
  frozen_market_days, frozen,
}
use networth.Staleness.{
  posting_grace, inside_expectation, healthy_market_days_without_advance, assess_clock, assess,
  healthy_item, clock_assessment, is_manual_static, assess_static, classify, assess_synced,
  undated_assessment, static_assessment,
}
use networth.Staleness.Assess.{assess-eq, manual_static_of, days_when_fresh}

-- The checks return the record that they are given.
new_assessment-same :
    (x : FreshnessAssessment) {a : FreshnessAssessment} → new_assessment x ≡ ok a → a ≡ x
unfolding new_assessment
new_assessment-same x h = ground arith

assess-owned :
    (c : Calendar) (o : ObservationDraft) (policy : FreshnessPolicy) (item : Option ItemHealth)
    (at : ℕ) {a : FreshnessAssessment}
    → assess c o policy item at ≡ ok a
    → requires_item policy ≡ is_some item
unfolding assess
assess-owned c o policy item at h = elim (Bool-cases (same (requires_item policy) (is_some item))) [
  | inl agree ↦ ground arith
  | inr clash ↦ absurd (cc (rw clash at h))
]

classify-frozen_iff :
    (is_fresh healthy : Bool) (n : ℕ)
    → (is_fresh ≡ true → (if healthy then n else 0) < frozen_market_days)
    → (classify is_fresh (if healthy then n else 0) ≡ frozen)
      ↔ ((healthy ≡ true) × (frozen_market_days ≤ n))
classify-frozen_iff is_fresh healthy n young = (λ f. ground arith, λ k. ground arith)

module _ (c : Calendar) (o : ObservationDraft) (policy : FreshnessPolicy) (item : Option ItemHealth)
    (at : ℕ) where
  -- How an assessment came about: from a fixed valuation, with no clock, or from a clock.
  pub data Origin (a : FreshnessAssessment) : Type 0 where
    fixed :
        (source : ℕ)
        → policy ≡ manual_static
        → o.figure.as_of ≡ some source
        → a ≡ static_assessment o source
        → Origin a
    undated :
        is_manual_static policy ≡ false
        → o.figure.as_of ≡ none
        → a ≡ undated_assessment o item
        → Origin a
    clocked :
        (source : ℕ) (is_fresh : Bool)
        → is_manual_static policy ≡ false
        → o.figure.as_of ≡ some source
        → inside_expectation c policy source at (posting_grace policy) ≡ ok is_fresh
        → a
          ≡ clock_assessment o item source is_fresh
              (healthy_market_days_without_advance c source item at (posting_grace policy))
        → Origin a

  static-Origin :
      (clock : Option ℕ) {a : FreshnessAssessment}
      → policy ≡ manual_static
      → o.figure.as_of ≡ clock
      → assess_static o clock ≡ ok a
      → Origin a
  static-Origin none p e h = cc
  static-Origin (some source) p e h = fixed source p e (new_assessment-same _ h)

  synced-Origin :
      (clock : Option ℕ) {a : FreshnessAssessment}
      → is_manual_static policy ≡ false
      → o.figure.as_of ≡ clock
      → assess_synced c o policy item at clock ≡ ok a
      → Origin a
  unfolding assess_clock
  synced-Origin none p e h = undated p e (new_assessment-same _ h)
  synced-Origin (some source) p e h =
      let (is_fresh, inside, made) =
        >>=-eq-ok (inside_expectation c policy source at (posting_grace policy)) _ h in
      clocked source is_fresh p e inside (new_assessment-same _ made)

  pub assess-Origin : {a : FreshnessAssessment} → assess c o policy item at ≡ ok a → Origin a
  assess-Origin h =
      let plain = sym (assess-eq c o policy item at (assess-owned c o policy item at h)) ∙ h in
      elim (Bool-cases (is_manual_static policy)) [
        | inl manual ↦
            static-Origin o.figure.as_of (manual_static_of policy manual) refl (rw manual at plain)
        | inr synced ↦ synced-Origin o.figure.as_of synced refl (rw synced at plain)
      ]

  static_unhealthy :
      policy ≡ manual_static → requires_item policy ≡ is_some item → healthy_item item ≡ false
  unfolding requires_item
  static_unhealthy p owned = elim (Option-cases item) [
    | inl e ↦ rw e refl
    | inr (i, e) ↦ absurd (cc (rw (p, e) at owned))
  ]

  module _ (east : IsEastern c.zone) where
    -- An assessment is FROZEN exactly if the Item is HEALTHY and at least five sessions have
    -- closed, with the posting grace elapsed, since the source clock that the observation carries.
    -- The time zone is New York's.
    pub assess-frozen_iff :
        (a : FreshnessAssessment)
        → assess c o policy item at ≡ ok a
        → (a.state ≡ frozen) ↔ (
            (healthy_item item ≡ true)
            × ((source : ℕ) × (o.figure.as_of ≡ some source)
                × (frozen_market_days
                    ≤ length (completed_closes_after c source at (posting_grace policy)))))
    unfolding healthy_market_days_without_advance
    assess-frozen_iff a h = elim (assess-Origin h) [
      | fixed source p e eq ↦ (
        λ f. cc (f, eq),
        λ k. absurd (cc (k.0, static_unhealthy p (assess-owned c o policy item at h))),
      )
      | undated p e eq ↦ (λ f. cc (f, eq), λ k. absurd (cc (e, k.1.1)))
      | clocked source is_fresh p e inside eq ↦
          let by_days =
            classify-frozen_iff is_fresh (healthy_item item)
              (length (completed_closes_after c source at (posting_grace policy)))
              (λ f. days_when_fresh c east policy item source at (rw f at inside)) in
          (
            λ f.
                let (well, old) =
                  by_days.0 (sym (ap (λ (x : FreshnessAssessment). x.state) eq) ∙ f) in
                (well, (source, e, old)),
            λ k.
                let same_source : k.1.0 ≡ source = cc (e, k.1.1) in
                ap (λ (x : FreshnessAssessment). x.state) eq
                ∙ by_days.1 (
                  k.0,
                  subst
                      (λ s.
                        frozen_market_days
                        ≤ length (completed_closes_after c s at (posting_grace policy)))
                      same_source k.1.2,
                ),
          )
    ]
