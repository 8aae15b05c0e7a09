-- ===== src/Staleness/Assess.antt =====
-- `StalenessMachine.assess`: when it raises, and what its states mean.
use networth.Prelude.{
  ℕ, ◌+◌, ◌≤◌, ◌<◌, ◌≡◌, ◌≢◌, inl, inr, refl, Bool, true, false, Option, none, some, leb, length,
  arith, Bool-cases, ◌∙◌, if◌then◌else◌,
}
use networth.Prelude.Result.{ok, ◌>>=◌, >>=-eq-ok}
use networth.Calendar.Zone.{IsEastern}
use networth.Calendar.Market.{Calendar, latest_completed_close, completed_closes_after}
use networth.Calendar.Market.After.{length-completed_closes_after, completed_closes_after-latest}
use networth.Model.Item.{ItemHealth, is_some}
use networth.Model.Observation.{ObservationDraft}
use networth.Model.Freshness.{
  FreshnessPolicy, synced_holdings, synced_balance, manual_static, manual_qty_live_price,
  requires_item, FreshnessAssessment, new_assessment, frozen_market_days,
}
use networth.Staleness.{
  cash_fresh_for, posting_grace, inside_expectation, healthy_market_days_without_advance,
  assess_clock, assess, healthy_item, clock_assessment, is_manual_static, assess_static,
  assess_synced, undated_assessment, static_assessment,
}

-- The checks of `FreshnessAssessment` pass when fresh data is not five closes old and only a
-- HEALTHY Item accumulates market days.
new_assessment-clock :
    (o : ObservationDraft) (item : Option ItemHealth) (source : ℕ) (is_fresh : Bool) (days : ℕ)
    → (is_fresh ≡ true → days < frozen_market_days)
    → (healthy_item item ≡ false → days ≡ 0)
    → new_assessment (clock_assessment o item source is_fresh days)
      ≡ ok (clock_assessment o item source is_fresh days)
unfolding new_assessment
new_assessment-clock o none source is_fresh days young idle = ground arith
new_assessment-clock o (some i) source is_fresh days young idle = ground arith

assess_static_total :
    (o : ObservationDraft) (clock : Option ℕ)
    → clock ≢ none
    → (a : FreshnessAssessment) × (assess_static o clock ≡ ok a)
unfolding new_assessment
assess_static_total o none h = absurd (h refl)
assess_static_total o (some source) h = (static_assessment o source, refl)

pub manual_static_of :
    (policy : FreshnessPolicy) → is_manual_static policy ≡ true → policy ≡ manual_static
manual_static_of manual_static h = refl
manual_static_of _ h = cc

-- What `assess` does past its check of the Item.
pub assess-eq :
    (c : Calendar) (o : ObservationDraft) (policy : FreshnessPolicy) (item : Option ItemHealth)
    (at : ℕ)
    → requires_item policy ≡ is_some item
    → assess c o policy item at ≡ (
        if is_manual_static policy
        then assess_static o o.figure.as_of
        else assess_synced c o policy item at o.figure.as_of)
unfolding assess
assess-eq c o policy item at owned = elim (Bool-cases (is_some item)) [
  | inl e ↦ rw (owned, e)
  | inr e ↦ rw (owned, e)
]

module _ (c : Calendar) (east : IsEastern c.zone) where
  -- Within 36 hours of the source clock at most three closes can have passed.
  length-closes_in_window :
      (source at grace : ℕ)
      → at ≤ source + cash_fresh_for
      → length (completed_closes_after c source at grace) < frozen_market_days
  length-closes_in_window source at grace h = omega (
    arith,
    length-completed_closes_after c source at grace,
    east.date_low at,
    east.date_high source,
  )

  length-closes_after_required :
      (source at grace : ℕ) {is_fresh : Bool}
      → (latest_completed_close c at grace >>= λ r. ok (leb r source)) ≡ ok is_fresh
      → is_fresh ≡ true
      → length (completed_closes_after c source at grace) < frozen_market_days
  length-closes_after_required source at grace h yes_fresh =
      let (r, newest, test) = >>=-eq-ok (latest_completed_close c at grace) _ h in
      let le : r ≤ source = ground arith in
      rw (completed_closes_after-latest c source at grace east r newest le) (omega arith)

  -- Data inside its expectation is never old enough to be called frozen.
  length-closes_when_fresh :
      (policy : FreshnessPolicy) (source at : ℕ)
      → inside_expectation c policy source at (posting_grace policy) ≡ ok true
      → length (completed_closes_after c source at (posting_grace policy)) < frozen_market_days
  unfolding inside_expectation
  length-closes_when_fresh synced_balance source at h =
      length-closes_in_window source at 0 (ground arith)
  length-closes_when_fresh synced_holdings source at h =
      length-closes_after_required source at _ h refl
  length-closes_when_fresh manual_static source at h =
      length-closes_after_required source at _ h refl
  length-closes_when_fresh manual_qty_live_price source at h =
      length-closes_after_required source at _ h refl

  pub days_when_fresh :
      (policy : FreshnessPolicy) (item : Option ItemHealth) (source at : ℕ)
      → inside_expectation c policy source at (posting_grace policy) ≡ ok true
      → healthy_market_days_without_advance c source item at (posting_grace policy)
        < frozen_market_days
  unfolding healthy_market_days_without_advance
  days_when_fresh policy item source at h =
      ground (arith, length-closes_when_fresh policy source at h)

  inside_expectation_total :
      (policy : FreshnessPolicy) (source at r : ℕ)
      → latest_completed_close c at (posting_grace policy) ≡ ok r
      → (b : Bool) × (inside_expectation c policy source at (posting_grace policy) ≡ ok b)
  unfolding inside_expectation
  inside_expectation_total synced_balance source at r h = (leb at (source + cash_fresh_for), refl)
  inside_expectation_total synced_holdings source at r h = (leb r source, rw h)
  inside_expectation_total manual_static source at r h = (leb r source, rw h)
  inside_expectation_total manual_qty_live_price source at r h = (leb r source, rw h)

  -- An unhealthy Item, or none, accumulates no market days.
  days_when_unhealthy :
      (item : Option ItemHealth) (source at grace : ℕ)
      → healthy_item item ≡ false
      → healthy_market_days_without_advance c source item at grace ≡ 0
  unfolding healthy_market_days_without_advance
  days_when_unhealthy item source at grace h = rw h refl

  assess_clock_total :
      (o : ObservationDraft) (policy : FreshnessPolicy) (item : Option ItemHealth) (at source r : ℕ)
      → latest_completed_close c at (posting_grace policy) ≡ ok r
      → (a : FreshnessAssessment) × (assess_clock c o policy item at source ≡ ok a)
  unfolding assess_clock
  assess_clock_total o policy item at source r h =
      let days = healthy_market_days_without_advance c source item at (posting_grace policy) in
      let (is_fresh, e) = inside_expectation_total policy source at r h in
      (
        clock_assessment o item source is_fresh days,
        rw e (
            new_assessment-clock o item source is_fresh days
              (λ f. days_when_fresh policy item source at (rw f at e))
              (days_when_unhealthy item source at (posting_grace policy))),
      )

  assess_synced_total :
      (o : ObservationDraft) (policy : FreshnessPolicy) (item : Option ItemHealth) (at r : ℕ)
      (clock : Option ℕ)
      → latest_completed_close c at (posting_grace policy) ≡ ok r
      → (a : FreshnessAssessment) × (assess_synced c o policy item at clock ≡ ok a)
  unfolding new_assessment
  assess_synced_total o policy none at r none h = (undated_assessment o none, refl)
  assess_synced_total o policy (some i) at r none h = (undated_assessment o (some i), ground arith)
  assess_synced_total o policy item at r (some source) h =
      assess_clock_total o policy item at source r h

  -- `assess` returns an assessment, so no check of `FreshnessAssessment` ever fails, whenever the
  -- policy agrees with the presence of an Item, a MANUAL_STATIC observation has a clock, and the
  -- calendar has a completed close. The time zone is New York's.
  pub assess_total :
      (o : ObservationDraft) (policy : FreshnessPolicy) (item : Option ItemHealth) (at r : ℕ)
      → requires_item policy ≡ is_some item
      → (policy ≡ manual_static → o.figure.as_of ≢ none)
      → latest_completed_close c at (posting_grace policy) ≡ ok r
      → (a : FreshnessAssessment) × (assess c o policy item at ≡ ok a)
  unfolding assess
  assess_total o policy item at r owned dated h = elim (Bool-cases (is_manual_static policy)) [
    | inl manual ↦
        let (a, e) =
          assess_static_total o o.figure.as_of (dated (manual_static_of policy manual)) in
        (a, assess-eq c o policy item at owned ∙ rw manual e)
    | inr synced ↦
        let (a, e) = assess_synced_total o policy item at r o.figure.as_of h in
        (a, assess-eq c o policy item at owned ∙ rw synced e)
  ]
