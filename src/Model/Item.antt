-- ===== src/Model/Item.antt =====
-- networth/model/item.py: Axis A of an Item, its stored health, and one poll's update.
use networth.Prelude.{
  ℕ, Bool, true, false, not, ◌&&◌, ◌||◌, Option, none, some, String, ltb, if◌then◌else◌,
}
use networth.Prelude.Result.{Result, ok, ◌>>◌, raise_if, invalid_item, invalid_update}
use networth.Model.Texts.{is_nonempty, nonempty_or_absent}

pub data ItemState : Type 0 where
  healthy degraded needs_reauth revoked : ItemState

unfoldable pub owner_actionable : ItemState → Bool
owner_actionable needs_reauth = true
owner_actionable revoked = true
owner_actionable _ = false

abbrev pub is_healthy : ItemState → Bool
is_healthy healthy = true
is_healthy _ = false

abbrev pub is_degraded : ItemState → Bool
is_degraded degraded = true
is_degraded _ = false

abbrev pub is_some {ℓ} : {A : Type ℓ} → Option A → Bool
is_some none = false
is_some (some _) = true

pub record ItemHealth : Type 0 where
  pub id : ℕ
  pub plaid_item_id : String
  pub secret_ref : String
  pub status : ItemState
  pub status_since : ℕ
  pub last_polled_at : Option ℕ
  pub investments_last_successful_update : Option ℕ
  pub last_error_code : Option String
  pub last_error_detail : Option String

-- `ItemHealth.__post_init__`
unfoldable pub new_item_health : ItemHealth → Result ItemHealth
new_item_health i = do
  raise_if (not (ltb 0 i.id)) invalid_item
  raise_if (not (is_nonempty i.plaid_item_id)) invalid_item
  raise_if (not (is_nonempty i.secret_ref)) invalid_item
  raise_if (not (nonempty_or_absent i.last_error_code)) invalid_item
  raise_if (not (nonempty_or_absent i.last_error_detail)) invalid_item
  raise_if (is_healthy i.status && (is_some i.last_error_code || is_some i.last_error_detail))
      invalid_item
  ok i

pub record ItemHealthUpdate : Type 0 where
  pub polled_at : ℕ
  pub status : Option ItemState
  pub error_code : Option String
  pub error_detail : Option String
  pub investments_status_observed : Bool
  pub investments_last_successful_update : Option ℕ

-- No transition, or one to HEALTHY.
abbrev pub carries_no_error : Option ItemState → Bool
carries_no_error none = true
carries_no_error (some s) = is_healthy s

-- `ItemHealthUpdate.__post_init__`
unfoldable pub new_item_health_update : ItemHealthUpdate → Result ItemHealthUpdate
new_item_health_update u = do
  raise_if (not u.investments_status_observed && is_some u.investments_last_successful_update)
      invalid_update
  raise_if (not (nonempty_or_absent u.error_code)) invalid_update
  raise_if (not (nonempty_or_absent u.error_detail)) invalid_update
  raise_if
      (if carries_no_error u.status
        then is_some u.error_code || is_some u.error_detail
        else not (is_some u.error_detail))
      invalid_update
  ok u
