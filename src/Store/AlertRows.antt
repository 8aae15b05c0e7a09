-- ===== src/Store/AlertRows.antt =====
-- Which rows of the alert table one call may change.
use networth.Prelude.{
  ℕ, ◌≡◌, ◌≢◌, ◌∙◌, refl, sym, ap, subst, Bool, false, not, ◌&&◌, some, List, [], ◌∷◌, ◌++◌, ltb,
  ◌==◌, arith, any, Bool-cases, inl, inr,
}
use networth.Prelude.Result.{
  ok, >>=-eq-ok, ok-injective, raise_if-eq-ok, alert_value, alert_already_open, foreign_key,
}
use networth.Model.Alert.{carries_source_clock, AlertDraft, Alert, new_alert}
use networth.Store.Tables.{Database, find, find-hit, find-miss}
use networth.Store.Alerts.{
  raise_alert, Column, set_column, notified, resolved, stamp, set_source, advance_source_clock,
  update_alerts, write_alert, raised_alert, alert_from_row, get_open, is_before, column_value,
  is_forward, item_exists, account_exists, same_subject,
}

abbrev pub has_id : ℕ → Alert → Bool
has_id k a = a.id == k

-- The row of an id, where there is one, is the same in both tables.
abbrev pub Keeps : ℕ → List Alert → List Alert → Type 0
Keeps k rows rows' = (r : Alert) → find (has_id k) rows ≡ some r → find (has_id k) rows' ≡ some r

Keeps-append : (k : ℕ) (rows more : List Alert) → Keeps k rows (rows ++ more)
Keeps-append k [] more = λ r h. cc
Keeps-append k (x ∷ xs) more = λ r h. elim (Bool-cases (x.id == k)) [
  | inl e ↦ find-hit (has_id k) x (xs ++ more) e ∙ sym (find-hit (has_id k) x xs e) ∙ h
  | inr e ↦
      find-miss (has_id k) x (xs ++ more) e
      ∙ Keeps-append k xs more r (sym (find-miss (has_id k) x xs e) ∙ h)
]

Keeps-update_alerts :
    (k alert_id : ℕ) (f : Alert → Alert) (rows : List Alert)
    → ((a : Alert) → (f a).id ≡ a.id)
    → alert_id ≢ k
    → Keeps k rows (update_alerts f alert_id rows)
Keeps-update_alerts k alert_id f [] same differ = λ r h. h
Keeps-update_alerts k alert_id f (x ∷ xs) same differ = λ r h.
    let rest = Keeps-update_alerts k alert_id f xs same differ in
    elim (Bool-cases (x.id == alert_id)) [
      | inl e ↦
          let miss : (x.id == k) ≡ false = ground arith in
          rw e (
            find-miss (has_id k) (f x) (update_alerts f alert_id xs)
              (ap (λ n. n == k) (same x) ∙ miss)
            ∙ rest r (sym (find-miss (has_id k) x xs miss) ∙ h))
      | inr e ↦ rw e (elim (Bool-cases (x.id == k)) [
        | inl q ↦ find-hit (has_id k) x _ q ∙ sym (find-hit (has_id k) x xs q) ∙ h
        | inr q ↦ find-miss (has_id k) x _ q ∙ rest r (sym (find-miss (has_id k) x xs q) ∙ h)
      ])
    ]

set_column-id : (c : Column) (at : ℕ) (a : Alert) → (set_column c at a).id ≡ a.id
set_column-id notified at a = refl
set_column-id resolved at a = refl

Keeps-write_alert :
    (k alert_id : ℕ) (f : Alert → Alert) (db : Database) (existing : Alert) {a : Alert}
    {db' : Database}
    → ((a : Alert) → (f a).id ≡ a.id)
    → alert_id ≢ k
    → write_alert db f alert_id existing ≡ ok (a, db')
    → Keeps k db.alerts db'.alerts
unfolding write_alert
Keeps-write_alert k alert_id f db existing {a} {db'} same differ h =
    let (a1, read, wrote) = >>=-eq-ok (alert_from_row (f existing)) _ h in
    let same_db : record db { alerts = update_alerts f alert_id db.alerts } ≡ db' =
      ap (λ p. p.1) (ok-injective wrote) in
    subst (λ (d : Database). Keeps k db.alerts d.alerts) same_db
      (Keeps-update_alerts k alert_id f db.alerts same differ)

pub Keeps-stamp :
    (k : ℕ) (db : Database) (c : Column) (alert_id at : ℕ) {a : Alert} {db' : Database}
    → alert_id ≢ k
    → stamp db c alert_id at ≡ ok (a, db')
    → Keeps k db.alerts db'.alerts
unfolding stamp
Keeps-stamp k db c alert_id at differ h =
    let (existing, got, h1) = >>=-eq-ok (get_open db.alerts alert_id) _ h in
    Keeps-write_alert k alert_id (set_column c at) db existing (set_column-id c at) differ (
      raise_if-eq-ok (is_before at (column_value c existing)) alert_value _
        (raise_if-eq-ok (ltb at existing.created_at) alert_value _ h1))

pub Keeps-advance_source_clock :
    (k : ℕ) (db : Database) (alert_id to : ℕ) {a : Alert} {db' : Database}
    → alert_id ≢ k
    → advance_source_clock db alert_id to ≡ ok (a, db')
    → Keeps k db.alerts db'.alerts
unfolding advance_source_clock
Keeps-advance_source_clock k db alert_id to differ h =
    let (existing, got, h1) = >>=-eq-ok (get_open db.alerts alert_id) _ h in
    Keeps-write_alert k alert_id (set_source to) db existing (λ a. refl) differ
      (raise_if-eq-ok (not (is_forward existing.raised_source_as_of to)) alert_value _
        (raise_if-eq-ok (not (carries_source_clock existing.kind)) alert_value _ h1))

pub Keeps-raise_alert :
    (k : ℕ) (db : Database) (d : AlertDraft) {a : Alert} {db' : Database}
    → raise_alert db d ≡ ok (a, db')
    → Keeps k db.alerts db'.alerts
unfolding raise_alert
Keeps-raise_alert k db d {a} {db'} h =
    let known = item_exists db.items d.item_id && account_exists db.accounts d.account_id in
    let h1 = raise_if-eq-ok (any (same_subject d) db.alerts) alert_already_open _ h in
    let h2 = raise_if-eq-ok (not known) foreign_key _ h1 in
    let (a1, made, wrote) = >>=-eq-ok (new_alert (raised_alert db.alerts d)) _ h2 in
    let same_db : record db { alerts = db.alerts ++ a1 ∷ [] } ≡ db' =
      ap (λ p. p.1) (ok-injective wrote) in
    subst (λ (d : Database). Keeps k db.alerts d.alerts) same_db
      (Keeps-append k db.alerts (a1 ∷ []))
