-- ===== src/Model/Freshness.antt =====
-- networth/model/staleness.py: the policies and states of Axis B, and one account's assessment.
use networth.Prelude.{ℕ, Bool, true, false, not, ◌&&◌, ◌||◌, Option, none, some, leb, ◌==◌}
use networth.Prelude.Result.{Result, ok, ◌>>◌, raise_if, invalid_assessment}
use networth.Model.Item.{ItemState, is_healthy, is_some}
use networth.Model.Figure.{same}

abbrev pub frozen_market_days : ℕ
frozen_market_days = 5

pub data FreshnessPolicy : Type 0 where
  synced_holdings synced_balance manual_static manual_qty_live_price : FreshnessPolicy

unfoldable pub requires_item : FreshnessPolicy → Bool
requires_item synced_holdings = true
requires_item synced_balance = true
requires_item _ = false

pub data FreshnessState : Type 0 where
  fresh stale unknown frozen static : FreshnessState

abbrev pub is_unknown : FreshnessState → Bool
is_unknown unknown = true
is_unknown _ = false

abbrev pub is_static : FreshnessState → Bool
is_static static = true
is_static _ = false

-- `FreshnessAssessment.is_fresh`
abbrev pub is_fresh : FreshnessState → Bool
is_fresh fresh = true
is_fresh _ = false

-- `FreshnessAssessment.frozen_alert_required`
abbrev pub is_frozen : FreshnessState → Bool
is_frozen frozen = true
is_frozen _ = false

pub data DisplayState : Type 0 where
  ok_state waiting action_needed : DisplayState

pub record FreshnessAssessment : Type 0 where
  pub state : FreshnessState
  pub source_as_of : Option ℕ
  pub market_days_without_advance : ℕ
  pub is_carried_forward : Bool
  pub item_state : Option ItemState

-- `item_state is ItemState.HEALTHY`
abbrev pub is_healthy_item : Option ItemState → Bool
is_healthy_item none = false
is_healthy_item (some s) = is_healthy s

abbrev pub qualifies_as_frozen : FreshnessAssessment → Bool
qualifies_as_frozen a =
    is_healthy_item a.item_state && leb frozen_market_days a.market_days_without_advance

-- `FreshnessAssessment.__post_init__`
unfoldable pub new_assessment : FreshnessAssessment → Result FreshnessAssessment
new_assessment a = do
  raise_if (same (is_unknown a.state) (is_some a.source_as_of)) invalid_assessment
  raise_if ((is_unknown a.state || is_static a.state) && not (a.market_days_without_advance == 0))
      invalid_assessment
  raise_if (not (same (is_frozen a.state) (qualifies_as_frozen a))) invalid_assessment
  ok a
