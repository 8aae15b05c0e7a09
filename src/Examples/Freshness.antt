-- ===== src/Examples/Freshness.antt =====
-- Freshness and display at concrete inputs.
use networth.Prelude.{ℕ, ◌*◌, ◌≤◌, ◌≡◌, ◌↔◌, refl, true, false, none, some, [], ◌∷◌, length, All}
use networth.Prelude.Result.{ok}
use networth.Calendar.Zone.{standard_time-IsEastern}
use networth.Model.Item.{healthy, degraded}
use networth.Model.Freshness.{
  synced_holdings, requires_item, FreshnessAssessment, new_assessment, fresh, frozen, unknown,
  frozen_market_days, ok_state, action_needed,
}
use networth.Calendar.Dates.{hour, ordinal, weekday, year_of}
use networth.Calendar.Holidays.{regular_holidays, regular_early_closes}
use networth.Calendar.Market.{
  latest_completed_close, completed_closes_after, session_close, is_closed, close_time,
}
use networth.Staleness.{
  assess, inside_expectation, healthy_market_days_without_advance, healthy_item, is_manual_static,
  posting_grace, display_state,
}
use networth.Staleness.Assess.{assess_total}
use networth.Staleness.States.{assess-frozen_iff}
use networth.Staleness.Fresh.{assess-fresh_iff, assess_source_clock, MeetsPolicy}
use networth.Staleness.Display.{IsQuiet, display_state-ok_iff, display_state-cons, severity}
use networth.Examples.Data.{calendar, noon, wednesday_close, brokerage_item, holdings_observation}

abbrev fresh_holdings : FreshnessAssessment
fresh_holdings = record {
  state = fresh;
  source_as_of = some wednesday_close;
  market_days_without_advance = 0;
  is_carried_forward = false;
  item_state = some healthy;
}

posted_at_noon : latest_completed_close calendar noon (12 * hour) ≡ ok wednesday_close
unfolding latest_completed_close session_close is_closed weekday regular_holidays ordinal year_of
    close_time regular_early_closes
posted_at_noon = refl

pub assess_at_noon :
    assess calendar holdings_observation.draft synced_holdings (some brokerage_item) noon
    ≡ ok fresh_holdings
unfolding assess inside_expectation healthy_market_days_without_advance new_assessment requires_item
    latest_completed_close completed_closes_after session_close is_closed weekday regular_holidays
    ordinal year_of close_time regular_early_closes
assess_at_noon = refl

assess_total_example :
    (a : FreshnessAssessment) × (assess calendar holdings_observation.draft synced_holdings
        (some brokerage_item)
        noon
      ≡ ok a)
unfolding requires_item
assess_total_example =
    assess_total calendar standard_time-IsEastern holdings_observation.draft synced_holdings
      (some brokerage_item) noon wednesday_close refl (λ p. cc p) posted_at_noon

assess-frozen_iff_example : (fresh_holdings.state ≡ frozen) ↔ (
    (healthy_item (some brokerage_item) ≡ true)
    × ((source : ℕ) × (holdings_observation.figure.as_of ≡ some source)
        × (frozen_market_days
            ≤ length
                (completed_closes_after calendar source noon (posting_grace synced_holdings)))))
assess-frozen_iff_example =
    assess-frozen_iff calendar holdings_observation.draft synced_holdings (some brokerage_item) noon
      standard_time-IsEastern fresh_holdings assess_at_noon

assess-fresh_iff_example : (fresh_holdings.state ≡ fresh) ↔ (
    (is_manual_static synced_holdings ≡ false)
    × ((source : ℕ) × (holdings_observation.figure.as_of ≡ some source)
        × MeetsPolicy calendar synced_holdings source noon))
assess-fresh_iff_example =
    assess-fresh_iff calendar standard_time-IsEastern holdings_observation.draft synced_holdings
      (some brokerage_item) noon fresh_holdings assess_at_noon

assess_source_clock_example :
    (fresh_holdings.source_as_of ≡ holdings_observation.figure.as_of)
    × ((fresh_holdings.state ≡ unknown) ↔ (holdings_observation.figure.as_of ≡ none))
assess_source_clock_example =
    assess_source_clock calendar standard_time-IsEastern holdings_observation.draft synced_holdings
      (some brokerage_item) noon fresh_holdings assess_at_noon

display_state-ok_iff_example : (display_state (fresh_holdings ∷ []) (healthy ∷ []) 0 ≡ ok_state) ↔ (
    ◌≡◌ {A = ℕ} 0 0 × (All (λ s. s ≡ healthy) (healthy ∷ []) × All IsQuiet (fresh_holdings ∷ [])))
display_state-ok_iff_example = display_state-ok_iff (fresh_holdings ∷ []) (healthy ∷ []) 0

display_state-cons_example :
    (severity (display_state [] (degraded ∷ []) 0)
      ≤ severity (display_state (fresh_holdings ∷ []) (degraded ∷ []) 0))
    × (fresh_holdings.state ≡ frozen
        → display_state (fresh_holdings ∷ []) (degraded ∷ []) 0 ≡ action_needed)
display_state-cons_example = display_state-cons fresh_holdings [] (degraded ∷ []) 0
