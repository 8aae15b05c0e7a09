-- ===== src/Alerts/Frozen.antt =====
-- When `_evaluate_frozen` resolves an open frozen-data alert.
use networth.Prelude.{ℕ, ◌<◌, ◌≡◌, ◌⊎◌, false, some}
use networth.Model.Freshness.{FreshnessAssessment, is_frozen}
use networth.Model.Alert.{Alert}
use networth.Store.Alerts.{resolved}
use networth.Alerts.{Evaluation}

-- The assessment's clock is past the one that the alert was raised for, and no longer FROZEN.
pub record HasThawed (a : Alert) (f : FreshnessAssessment) : Type 0 where
  pub was : ℕ
  pub source : ℕ
  pub raised_for : a.raised_source_as_of ≡ some was
  pub observed : f.source_as_of ≡ some source
  pub advanced : was < source
  pub unfrozen : is_frozen f.state ≡ false

-- What a step may do to an open frozen-data alert.
abbrev Outcome : Alert → FreshnessAssessment → Evaluation → Evaluation → Type 0
Outcome a f e e' = (e'.raised ≡ e.raised) × ((e'.resolved ≡ e.resolved) ⊎ HasThawed a f)
