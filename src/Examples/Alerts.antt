-- ===== src/Examples/Alerts.antt =====
-- Two open alerts: the savings account waits for its reconciliation, and the brokerage's data froze.
use networth.Prelude.{ℕ, ◌-◌, ◌*◌, ◌≡◌, refl, true, false, none, some, List, [], ◌∷◌, ◌==◌}
use networth.Prelude.Result.{ok}
use networth.Prelude.Sort.{sort}
use networth.Calendar.Dates.{day}
use networth.Model.Texts.{is_nonempty}
use networth.Model.Item.{healthy}
use networth.Model.Freshness.{FreshnessAssessment, fresh}
use networth.Model.Alert.{frozen_data, pending_reconciliation, AlertDraft, Alert, new_alert}
use networth.Store.Tables.{Database, find, convert}
use networth.Store.Alerts.{open_alerts, stamp, get_alert, get_open, write_alert}
use networth.Alerts.{AccountSignal, Evaluation, account_draft, evaluate, resolve_one}
use networth.Alerts.Bulletin.{DeliverableAlert}
use networth.Alerts.Unmentioned.{evaluate-unmentioned}
use networth.Examples.Data.{thursday, noon, wednesday_close, household}

abbrev alert_of : ℕ → AlertDraft → Alert
alert_of id d = record {
  draft = d;
  id = id;
  notified_at = none;
  acknowledged_at = none;
  resolved_at = none;
}

abbrev waiting_alert : Alert
waiting_alert = alert_of 1 (account_draft thursday 2 pending_reconciliation none)

abbrev frozen_alert : Alert
frozen_alert = alert_of 2 (account_draft thursday 1 frozen_data (some (wednesday_close - 9 * day)))

abbrev opened : List Alert
opened = waiting_alert ∷ frozen_alert ∷ []

abbrev tables : Database
tables = record household { alerts = opened }

-- The brokerage is fresh again; nothing is said of the savings account.
abbrev fresh_again : FreshnessAssessment
fresh_again = record {
  state = fresh;
  source_as_of = some wednesday_close;
  market_days_without_advance = 0;
  is_carried_forward = false;
  item_state = some healthy;
}

abbrev signal : AccountSignal
signal = record {
  account_id = 1;
  is_pending_reconciliation = false;
  freshness = some fresh_again;
  share_count = none;
}

abbrev thawed_alert : Alert
thawed_alert = record frozen_alert { resolved_at = some noon }

abbrev start : Evaluation
start = record { database = tables; raised = []; resolved = [] }

abbrev thawed : Evaluation
thawed = record {
  database = record tables { alerts = waiting_alert ∷ thawed_alert ∷ [] };
  raised = [];
  resolved = thawed_alert ∷ [];
}

opened_read : open_alerts tables.alerts ≡ ok opened
unfolding open_alerts new_alert is_nonempty convert sort
opened_read = refl

evaluated : evaluate noon [] (signal ∷ []) tables ≡ ok thawed
unfolding evaluate open_alerts new_alert is_nonempty resolve_one stamp get_open get_alert
    write_alert convert sort
evaluated = refl

evaluate-unmentioned_example : find (λ a. a.id == 1) thawed.database.alerts ≡ some waiting_alert
evaluate-unmentioned_example =
    evaluate-unmentioned noon [] (signal ∷ []) tables opened waiting_alert thawed evaluated
      opened_read ((λ _. (tt, (refl, tt))), ((λ h. cc), tt)) refl

-- A bulletin in which the waiting alert prompts and the frozen one travels quietly.
abbrev delivered : List DeliverableAlert
delivered =
    record { alert = waiting_alert; prompt = true }
    ∷ record { alert = frozen_alert; prompt = false }
    ∷ []

abbrev prompted_alert : Alert
prompted_alert = record waiting_alert { notified_at = some noon }
