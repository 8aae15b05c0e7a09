-- ===== src/Store/OnlyAlerts.antt =====
-- networth/store/sqlite.py: the writes of `AlertRepository` leave every other table alone.
use networth.Prelude.{ℕ, ◌≡◌, ap, []}
use networth.Prelude.Result.{
  ok, >>=-eq-ok, raise_if-eq-ok, ok-injective, alert_already_open, foreign_key, alert_value,
}
use networth.Model.Alert.{AlertDraft, Alert, new_alert}
use networth.Store.Tables.{Database}
use networth.Store.Alerts.{
  raise_alert, stamp, resolved, advance_source_clock, write_alert, alert_from_row, get_open,
  raised_alert, set_source, set_column,
}

-- The tables but for the alerts.
abbrev pub without_alerts : Database → Database
without_alerts db = record db { alerts = [] }

-- The two differ in the alerts at most.
abbrev pub OnlyAlerts : Database → Database → Type 0
OnlyAlerts db db' = without_alerts db ≡ without_alerts db'

write_alert-OnlyAlerts :
    (db : Database) (f : Alert → Alert) (alert_id : ℕ) (existing a : Alert) (db' : Database)
    → write_alert db f alert_id existing ≡ ok (a, db')
    → OnlyAlerts db db'
unfolding write_alert
write_alert-OnlyAlerts db f alert_id existing a db' h =
    let (a1, read, wrote) = >>=-eq-ok (alert_from_row (f existing)) _ h in
    ap (λ p. without_alerts p.1) (ok-injective wrote)

pub stamp-OnlyAlerts :
    (db : Database) (alert_id at : ℕ) (a : Alert) (db' : Database)
    → stamp db resolved alert_id at ≡ ok (a, db')
    → OnlyAlerts db db'
unfolding stamp
stamp-OnlyAlerts db alert_id at a db' h =
    let (existing, got, h1) = >>=-eq-ok (get_open db.alerts alert_id) _ h in
    write_alert-OnlyAlerts db (set_column resolved at) alert_id existing a db'
      (raise_if-eq-ok _ alert_value _ (raise_if-eq-ok _ alert_value _ h1))

pub advance-OnlyAlerts :
    (db : Database) (alert_id to : ℕ) (a : Alert) (db' : Database)
    → advance_source_clock db alert_id to ≡ ok (a, db')
    → OnlyAlerts db db'
unfolding advance_source_clock
advance-OnlyAlerts db alert_id to a db' h =
    let (existing, got, h1) = >>=-eq-ok (get_open db.alerts alert_id) _ h in
    write_alert-OnlyAlerts db (set_source to) alert_id existing a db'
      (raise_if-eq-ok _ alert_value _ (raise_if-eq-ok _ alert_value _ h1))

pub raise_alert-OnlyAlerts :
    (db : Database) (d : AlertDraft) (a : Alert) (db' : Database)
    → raise_alert db d ≡ ok (a, db')
    → OnlyAlerts db db'
unfolding raise_alert
raise_alert-OnlyAlerts db d a db' h =
    let h2 = raise_if-eq-ok _ foreign_key _ (raise_if-eq-ok _ alert_already_open _ h) in
    let (a1, made, wrote) = >>=-eq-ok (new_alert (raised_alert db.alerts d)) _ h2 in
    ap (λ p. without_alerts p.1) (ok-injective wrote)
