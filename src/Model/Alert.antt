-- ===== src/Model/Alert.antt =====
-- networth/model/alert.py: the five kinds of alert, a draft and a stored alert, with their checks.
use networth.Prelude.{ℕ, Bool, true, false, not, Option, none, some, String, ltb, if◌then◌else◌}
use networth.Prelude.Result.{Result, ok, ◌>>=◌, ◌>>◌, raise_if, invalid_alert}
use networth.Model.Texts.{is_nonempty}
use networth.Model.Item.{ItemState, healthy, degraded, needs_reauth, revoked, is_some}

-- The two Item kinds share their names with Item states in the source.
pub data AlertKind : Type 0 where
  item_needs_reauth item_revoked frozen_data pending_reconciliation share_count_unconfirmed :
      AlertKind

abbrev pub same_kind : AlertKind → AlertKind → Bool
same_kind item_needs_reauth item_needs_reauth = true
same_kind item_revoked item_revoked = true
same_kind frozen_data frozen_data = true
same_kind pending_reconciliation pending_reconciliation = true
same_kind share_count_unconfirmed share_count_unconfirmed = true
same_kind _ _ = false

abbrev pub is_item_scoped : AlertKind → Bool
is_item_scoped item_needs_reauth = true
is_item_scoped item_revoked = true
is_item_scoped _ = false

abbrev pub carries_source_clock : AlertKind → Bool
carries_source_clock frozen_data = true
carries_source_clock share_count_unconfirmed = true
carries_source_clock _ = false

abbrev pub for_item_state : ItemState → Option AlertKind
for_item_state healthy = none
for_item_state degraded = none
for_item_state needs_reauth = some item_needs_reauth
for_item_state revoked = some item_revoked

pub record AlertDraft : Type 0 where
  pub kind : AlertKind
  pub created_at : ℕ
  pub message : String
  pub item_id : Option ℕ
  pub account_id : Option ℕ
  pub raised_source_as_of : Option ℕ

abbrev pub is_positive : Option ℕ → Bool
is_positive none = false
is_positive (some n) = ltb 0 n

-- `_validate_alert_fields`, as `AlertDraft.__post_init__` calls it
unfoldable pub new_alert_draft : AlertDraft → Result AlertDraft
new_alert_draft d = do
  raise_if (not (is_nonempty d.message)) invalid_alert
  raise_if (not (is_positive (if is_item_scoped d.kind then d.item_id else d.account_id)))
      invalid_alert
  raise_if (is_some (if is_item_scoped d.kind then d.account_id else d.item_id)) invalid_alert
  raise_if
      (if carries_source_clock d.kind
        then not (is_some d.raised_source_as_of)
        else is_some d.raised_source_as_of)
      invalid_alert
  ok d

pub record Alert : Type 0 where
  pub draft : AlertDraft
  pub open draft use *
  pub id : ℕ
  pub notified_at : Option ℕ
  pub acknowledged_at : Option ℕ
  pub resolved_at : Option ℕ

abbrev pub precedes : Option ℕ → ℕ → Bool
precedes none t = false
precedes (some clock) t = ltb clock t

-- `Alert.__post_init__`
unfoldable pub new_alert : Alert → Result Alert
unfolding new_alert_draft
new_alert a = do
  raise_if (not (ltb 0 a.id)) invalid_alert
  d ← new_alert_draft a.draft
  raise_if (precedes a.notified_at a.created_at) invalid_alert
  raise_if (precedes a.acknowledged_at a.created_at) invalid_alert
  raise_if (precedes a.resolved_at a.created_at) invalid_alert
  ok a

-- `Alert.is_open`
abbrev pub is_open : Alert → Bool
is_open a = not (is_some a.resolved_at)
