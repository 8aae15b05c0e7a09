-- ===== src/Alerts.antt =====
-- networth/alerts.py: `AlertEvaluator`, which raises and resolves alerts for the subjects that its
-- caller reports.
pub mod Frame
pub mod AccountFrame
pub mod Unmentioned
pub mod Frozen
pub mod Bulletin
pub mod Prompts
pub mod OnlyAlerts
use networth.Prelude.{
  ℕ, ◌+◌, ◌-◌, ◌*◌, Bool, true, false, not, ◌&&◌, ◌||◌, Option, none, some, String, List, [], ◌∷◌,
  ◌++◌, leb, ltb, ◌==◌, if◌then◌else◌, keep, any,
}
use networth.Prelude.Result.{
  Result, ok, err, ◌>>=◌, ◌>>◌, raise_if, invalid_alert, future_clock, alert_value,
}
use networth.Calendar.Dates.{hour, day}
use networth.Model.Item.{ItemHealth, is_healthy, is_some}
use networth.Model.Freshness.{FreshnessAssessment, is_frozen}
use networth.Model.Alert.{
  AlertKind, item_needs_reauth, item_revoked, frozen_data, pending_reconciliation,
  share_count_unconfirmed, same_kind, for_item_state, AlertDraft, new_alert_draft, Alert,
}
use networth.Store.Tables.{Database}
use networth.Store.Alerts.{open_alerts, raise_alert, mark_notified, resolve, advance_source_clock}

abbrev pub reconfirm_share_count_after : ℕ
reconfirm_share_count_after = 90 * day

-- `_MESSAGES`
abbrev pub message_of : AlertKind → String
message_of item_needs_reauth = "This connection needs you to sign in again before it can update."
message_of item_revoked =
    "This connection was disconnected and needs to be linked again before it can update."
message_of frozen_data =
    "This account's data has stopped changing even though the connection looks fine. Its value may be out of date."
message_of pending_reconciliation =
    "This account is not counted in your total yet, because it still needs to be matched to the account it replaces."
message_of share_count_unconfirmed =
    "This account's share count has not been confirmed since you set it. If shares have vested since then, its value is out of date until you confirm the new count."

-- `ShareCountObservation`: the count was read, and was confirmed on a date or does not exist.
pub record ShareCountObservation : Type 0 where
  pub confirmed_on : Option ℕ

pub record AccountSignal : Type 0 where
  pub account_id : ℕ
  pub is_pending_reconciliation : Bool
  pub freshness : Option FreshnessAssessment
  pub share_count : Option ShareCountObservation

-- `AccountSignal.__post_init__`
unfoldable pub new_account_signal : AccountSignal → Result AccountSignal
new_account_signal s = do raise_if (not (ltb 0 s.account_id)) invalid_alert; ok s

-- What an evaluation has changed so far: the tables and `AlertEvaluation`.
pub record Evaluation : Type 0 where
  pub database : Database
  pub raised : List Alert
  pub resolved : List Alert

abbrev pub source_of : Option FreshnessAssessment → Option ℕ
source_of none = none
source_of (some a) = a.source_as_of

abbrev pub confirmation_of : Option ShareCountObservation → Option ℕ
confirmation_of none = none
confirmation_of (some o) = o.confirmed_on

abbrev pub is_after : Option ℕ → ℕ → Bool
is_after none at = false
is_after (some clock) at = ltb at clock

-- `_refuse_future_clocks`
unfoldable pub refuse_future_clocks : ℕ → List AccountSignal → Result (Unit {0})
refuse_future_clocks at [] = ok tt
refuse_future_clocks at (s ∷ rest) = do
  raise_if (is_after (source_of s.freshness) at) future_clock
  raise_if (is_after (confirmation_of s.share_count) at) future_clock
  refuse_future_clocks at rest

abbrev pub is_id : ℕ → Option ℕ → Bool
is_id n none = false
is_id n (some m) = n == m

-- `_for_subject`
abbrev pub for_item : ℕ → List Alert → List Alert
for_item item_id alerts = keep (λ a. is_id item_id a.item_id) alerts

abbrev pub for_account : ℕ → List Alert → List Alert
for_account account_id alerts = keep (λ a. is_id account_id a.account_id) alerts

-- `{alert.kind: alert for ...}.get(kind)`: the last one wins.
unfoldable pub of_kind : AlertKind → List Alert → Option Alert
of_kind kind [] = none
of_kind kind (a ∷ rest) = elim (of_kind kind rest) [
  | some b ↦ some b
  | none ↦ if same_kind a.kind kind then some a else none
]

-- `resolved.append(self._alerts.resolve(...))`
unfoldable pub resolve_one : ℕ → Alert → Evaluation → Result Evaluation
resolve_one at existing e = do
  (a, db) ← resolve e.database existing.id at
  ok (record { database = db; raised = e.raised; resolved = e.resolved ++ a ∷ [] })

-- `raised.append(self._alerts.raise_alert(AlertDraft(...)))`
unfoldable pub raise_one : AlertDraft → Evaluation → Result Evaluation
raise_one draft e = do
  d ← new_alert_draft draft
  (a, db) ← raise_alert e.database d
  ok (record { database = db; raised = e.raised ++ a ∷ []; resolved = e.resolved })

abbrev pub item_draft : ℕ → ℕ → AlertKind → AlertDraft
item_draft at item_id kind = record {
  kind = kind;
  created_at = at;
  message = message_of kind;
  item_id = some item_id;
  account_id = none;
  raised_source_as_of = none;
}

abbrev pub account_draft : ℕ → ℕ → AlertKind → Option ℕ → AlertDraft
account_draft at account_id kind source = record {
  kind = kind;
  created_at = at;
  message = message_of kind;
  item_id = none;
  account_id = some account_id;
  raised_source_as_of = source;
}

-- `existing.kind is wanted`
abbrev pub is_wanted : Option AlertKind → Alert → Bool
is_wanted none a = false
is_wanted (some kind) a = same_kind a.kind kind

-- The loop over an Item's open alerts.
unfoldable pub resolve_others :
    ℕ → Option AlertKind → Bool → List Alert → Evaluation → Result Evaluation
unfolding resolve_one
resolve_others at wanted supersedes [] e = ok e
resolve_others at wanted supersedes (existing ∷ rest) e = do
  e' ← if not (is_wanted wanted existing) && supersedes then resolve_one at existing e else ok e
  resolve_others at wanted supersedes rest e'

abbrev pub raise_wanted : ℕ → ℕ → Option AlertKind → List Alert → Evaluation → Result Evaluation
raise_wanted at item_id none existing e = ok e
raise_wanted at item_id (some kind) existing e =
    if any (λ a. same_kind a.kind kind) existing
    then ok e
    else raise_one (item_draft at item_id kind) e

-- One round of the loop over the Items.
unfoldable pub evaluate_item : ℕ → List Alert → ItemHealth → Evaluation → Result Evaluation
unfolding resolve_others raise_one
evaluate_item at opened item e = do
  let wanted = for_item_state item.status
  let existing = for_item item.id opened
  e' ← resolve_others at wanted (is_healthy item.status || is_some wanted) existing e
  raise_wanted at item.id wanted existing e'

-- A frozen alert is open: what a clock that advanced past it does.
abbrev pub advance_frozen :
    ℕ → Alert → FreshnessAssessment → Option ℕ → Option ℕ → Evaluation → Result Evaluation
advance_frozen at a assessment none source e = err alert_value
advance_frozen at a assessment (some raised_for) none e = ok e
advance_frozen at a assessment (some raised_for) (some source) e =
    if leb source raised_for
    then ok e
    else if is_frozen assessment.state
    then (do
      (_, db) ← advance_source_clock e.database a.id source
      ok (record { database = db; raised = e.raised; resolved = e.resolved }))
    else resolve_one at a e

abbrev pub frozen_step : ℕ → ℕ → FreshnessAssessment → Option Alert → Evaluation → Result Evaluation
frozen_step at account_id assessment none e =
    if is_frozen assessment.state
    then raise_one (account_draft at account_id frozen_data assessment.source_as_of) e
    else ok e
frozen_step at account_id assessment (some a) e =
    advance_frozen at a assessment a.raised_source_as_of assessment.source_as_of e

-- `_evaluate_frozen`
unfoldable pub evaluate_frozen :
    ℕ → ℕ → Option FreshnessAssessment → Option Alert → Evaluation → Result Evaluation
unfolding raise_one resolve_one
evaluate_frozen at account_id none open_alert e = ok e
evaluate_frozen at account_id (some assessment) open_alert e =
    frozen_step at account_id assessment open_alert e

-- `_evaluate_reconciliation`
unfoldable pub evaluate_reconciliation :
    ℕ → ℕ → Bool → Option Alert → Evaluation → Result Evaluation
unfolding raise_one resolve_one
evaluate_reconciliation at account_id true none e =
    raise_one (account_draft at account_id pending_reconciliation none) e
evaluate_reconciliation at account_id true (some a) e = ok e
evaluate_reconciliation at account_id false none e = ok e
evaluate_reconciliation at account_id false (some a) e = resolve_one at a e

-- The nudge about a share count that was confirmed too long ago.
abbrev pub nudge : ℕ → ℕ → ℕ → Evaluation → Result Evaluation
nudge at account_id set_on e =
    if leb (set_on + reconfirm_share_count_after) at
    then raise_one (account_draft at account_id share_count_unconfirmed (some set_on)) e
    else ok e

-- A nudge is open and the count has a date.
abbrev pub renew_nudge : ℕ → ℕ → ℕ → Alert → Option ℕ → Evaluation → Result Evaluation
renew_nudge at account_id set_on a none e = err alert_value
renew_nudge at account_id set_on a (some raised_for) e =
    if leb set_on raised_for then ok e else resolve_one at a e >>= nudge at account_id set_on

abbrev pub share_count_step : ℕ → ℕ → Option ℕ → Option Alert → Evaluation → Result Evaluation
share_count_step at account_id none none e = ok e
share_count_step at account_id none (some a) e = resolve_one at a e
share_count_step at account_id (some set_on) none e = nudge at account_id set_on e
share_count_step at account_id (some set_on) (some a) e =
    renew_nudge at account_id set_on a a.raised_source_as_of e

-- `_evaluate_share_count`
unfoldable pub evaluate_share_count :
    ℕ → ℕ → Option ShareCountObservation → Option Alert → Evaluation → Result Evaluation
unfolding raise_one resolve_one
evaluate_share_count at account_id none open_alert e = ok e
evaluate_share_count at account_id (some o) open_alert e =
    share_count_step at account_id o.confirmed_on open_alert e

-- One round of the loop over the accounts.
unfoldable pub evaluate_account : ℕ → List Alert → AccountSignal → Evaluation → Result Evaluation
unfolding of_kind evaluate_frozen evaluate_reconciliation evaluate_share_count
evaluate_account at opened s e = do
  let existing = for_account s.account_id opened
  e1 ← evaluate_frozen at s.account_id s.freshness (of_kind frozen_data existing) e
  e2 ←
      evaluate_reconciliation at s.account_id s.is_pending_reconciliation
        (of_kind pending_reconciliation existing) e1
  evaluate_share_count at s.account_id s.share_count (of_kind share_count_unconfirmed existing) e2

-- A loop whose body may raise.
unfoldable pub each :
    {A : Type 0} → (A → Evaluation → Result Evaluation) → List A → Evaluation → Result Evaluation
each step [] e = ok e
each step (x ∷ xs) e = do e' ← step x e; each step xs e'

-- `AlertEvaluator.evaluate`
unfoldable pub evaluate : ℕ → List ItemHealth → List AccountSignal → Database → Result Evaluation
unfolding refuse_future_clocks evaluate_item evaluate_account each
evaluate at items accounts db = do
  refuse_future_clocks at accounts
  opened ← open_alerts db.alerts
  e ← each (evaluate_item at opened) items (record { database = db; raised = []; resolved = [] })
  each (evaluate_account at opened) accounts e
