-- ===== src/Staleness.antt =====
-- networth/staleness.py: `StalenessMachine`, which reads one account's source clock against the
-- market calendar and composes the two axes for display.

pub mod Assess
pub mod States
pub mod Fresh
pub mod Display
use networth.Prelude.{
  ℕ, ◌+◌, ◌*◌, Bool, true, false, not, ◌||◌, Option, none, some, List, ◌++◌, [], ◌∷◌, leb, ltb,
  if◌then◌else◌, length, any,
}
use networth.Prelude.Result.{
  Result, ok, err, ◌>>=◌, ◌>>◌, raise_if, policy_mismatch, static_without_clock,
}
use networth.Calendar.Dates.{hour}
use networth.Calendar.Market.{Calendar, latest_completed_close, completed_closes_after}
use networth.Model.Item.{ItemState, ItemHealth, is_healthy, is_degraded, is_some, owner_actionable}
use networth.Model.Figure.{same}
use networth.Model.Observation.{ObservationDraft}
use networth.Model.Freshness.{
  FreshnessPolicy, synced_holdings, synced_balance, manual_static, manual_qty_live_price,
  requires_item, FreshnessState, fresh, stale, unknown, frozen, static, is_frozen,
  FreshnessAssessment, new_assessment, frozen_market_days, DisplayState, ok_state, waiting,
  action_needed,
}

abbrev pub cash_fresh_for : ℕ
cash_fresh_for = 36 * hour

abbrev pub holdings_posting_grace : ℕ
holdings_posting_grace = 12 * hour

-- `_posting_grace`
abbrev pub posting_grace : FreshnessPolicy → ℕ
posting_grace synced_holdings = holdings_posting_grace
posting_grace _ = 0

abbrev pub status_of : Option ItemHealth → Option ItemState
status_of none = none
status_of (some i) = some i.status

abbrev pub healthy_item : Option ItemHealth → Bool
healthy_item none = false
healthy_item (some i) = is_healthy i.status

-- `_healthy_market_days_without_advance`
unfoldable pub healthy_market_days_without_advance : Calendar → ℕ → Option ItemHealth → ℕ → ℕ → ℕ
healthy_market_days_without_advance c source item at grace =
    if healthy_item item then length (completed_closes_after c source at grace) else 0

-- The branch of `_inside_expectation` that needs the calendar.
abbrev pub after_required_close : Calendar → ℕ → ℕ → ℕ → Result Bool
after_required_close c source at grace = do
  required_close ← latest_completed_close c at grace
  ok (leb required_close source)

-- `_inside_expectation`
unfoldable pub inside_expectation : Calendar → FreshnessPolicy → ℕ → ℕ → ℕ → Result Bool
inside_expectation c synced_balance source at grace = ok (leb at (source + cash_fresh_for))
inside_expectation c synced_holdings source at grace = after_required_close c source at grace
inside_expectation c manual_static source at grace = after_required_close c source at grace
inside_expectation c manual_qty_live_price source at grace = after_required_close c source at grace

abbrev pub classify : Bool → ℕ → FreshnessState
classify is_fresh market_days =
    if is_fresh then fresh else if leb frozen_market_days market_days then frozen else stale

-- The assessment of an account whose clock is known.
abbrev pub clock_assessment :
    ObservationDraft → Option ItemHealth → ℕ → Bool → ℕ → FreshnessAssessment
clock_assessment o item source is_fresh market_days = record {
  state = classify is_fresh market_days;
  source_as_of = some source;
  market_days_without_advance = market_days;
  is_carried_forward = o.is_carried_forward;
  item_state = status_of item;
}

-- `assess` from the point where a clock is present and the policy is not MANUAL_STATIC.
unfoldable pub assess_clock :
    Calendar
    → ObservationDraft
    → FreshnessPolicy
    → Option ItemHealth
    → ℕ
    → ℕ
    → Result FreshnessAssessment
assess_clock c o policy item at source = do
  is_fresh ← inside_expectation c policy source at (posting_grace policy)
  new_assessment (
      clock_assessment o item source is_fresh
        (healthy_market_days_without_advance c source item at (posting_grace policy)))

abbrev pub static_assessment : ObservationDraft → ℕ → FreshnessAssessment
static_assessment o source = record {
  state = static;
  source_as_of = some source;
  market_days_without_advance = 0;
  is_carried_forward = o.is_carried_forward;
  item_state = none;
}

abbrev pub assess_static : ObservationDraft → Option ℕ → Result FreshnessAssessment
assess_static o none = err static_without_clock
assess_static o (some source) = new_assessment (static_assessment o source)

abbrev pub undated_assessment : ObservationDraft → Option ItemHealth → FreshnessAssessment
undated_assessment o item = record {
  state = unknown;
  source_as_of = none;
  market_days_without_advance = 0;
  is_carried_forward = o.is_carried_forward;
  item_state = status_of item;
}

abbrev pub assess_synced :
    Calendar
    → ObservationDraft
    → FreshnessPolicy
    → Option ItemHealth
    → ℕ
    → Option ℕ
    → Result FreshnessAssessment
assess_synced c o policy item at none = new_assessment (undated_assessment o item)
assess_synced c o policy item at (some source) = assess_clock c o policy item at source

abbrev pub is_manual_static : FreshnessPolicy → Bool
is_manual_static manual_static = true
is_manual_static _ = false

-- `assess`
unfoldable pub assess :
    Calendar
    → ObservationDraft
    → FreshnessPolicy
    → Option ItemHealth
    → ℕ
    → Result FreshnessAssessment
unfolding requires_item assess_clock
assess c o policy item at = do
  raise_if (not (same (requires_item policy) (is_some item))) policy_mismatch
  if is_manual_static policy
      then assess_static o o.figure.as_of
      else assess_synced c o policy item at o.figure.as_of

abbrev pub prepend : Option ItemState → List ItemState → List ItemState
prepend none l = l
prepend (some s) l = s ∷ l

-- The Item states that the assessments carry.
abbrev pub item_states_of : List FreshnessAssessment → List ItemState
item_states_of [] = []
item_states_of (a ∷ rest) = prepend a.item_state (item_states_of rest)

abbrev pub is_late : FreshnessState → Bool
is_late stale = true
is_late unknown = true
is_late _ = false

-- `display_state`
unfoldable pub display_state : List FreshnessAssessment → List ItemState → ℕ → DisplayState
unfolding owner_actionable
display_state collected explicit_items unreconciled_account_count =
    let all_item_states = explicit_items ++ item_states_of collected in
    if ltb 0 unreconciled_account_count
      || any owner_actionable all_item_states
      || any (λ a. is_frozen a.state) collected
    then action_needed
    else if any is_degraded all_item_states || any (λ a. is_late a.state) collected
    then waiting
    else ok_state
