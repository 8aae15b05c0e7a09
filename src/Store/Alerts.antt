-- ===== src/Store/Alerts.antt =====
-- networth/store/sqlite.py: `AlertRepository`, with the partial unique index of
-- networth/storage/sql/0004_alert_state.sql and the foreign keys of 0001_initial.sql.
use networth.Prelude.{
  ℕ, ◌+◌, Bool, true, false, not, ◌&&◌, Option, none, some, List, [], ◌∷◌, ◌++◌, leb, ltb, ◌==◌,
  if◌then◌else◌, keep, any,
}
use networth.Prelude.Result.{
  Result, ok, err, ◌>>=◌, ◌>>◌, raise_if, alert_already_open, alert_not_found, alert_value,
  foreign_key,
}
use networth.Prelude.Sort.{sort}
use networth.Model.Item.{ItemHealth}
use networth.Model.Figure.{same_clock}
use networth.Model.Alert.{same_kind, carries_source_clock, AlertDraft, Alert, new_alert, is_open}
use networth.Store.Tables.{AccountRow, Database, from_row, convert, convert_optional, find}

-- `_alert_from_row`
unfoldable pub alert_from_row : Alert → Result Alert
alert_from_row r = from_row (new_alert r)

-- `AlertRepository.get`
unfoldable pub get_alert : List Alert → ℕ → Result (Option Alert)
unfolding alert_from_row
get_alert rows alert_id = convert_optional alert_from_row (find (λ r. r.id == alert_id) rows)

-- `ORDER BY created_at, id`
abbrev pub by_creation : Alert → Alert → Bool
by_creation a b =
    if a.created_at == b.created_at then leb a.id b.id else leb a.created_at b.created_at

-- `AlertRepository.open`
unfoldable pub open_alerts : List Alert → Result (List Alert)
unfolding alert_from_row
open_alerts rows = convert alert_from_row (sort by_creation (keep is_open rows))

-- The id that SQLite gives to the next row.
abbrev pub next_alert_id : List Alert → ℕ
next_alert_id [] = 1
next_alert_id (a ∷ rest) = let n = next_alert_id rest in if ltb a.id n then n else a.id + 1

-- The key of the index `one_open_alert_per_subject`, for an open row.
abbrev pub same_subject : AlertDraft → Alert → Bool
same_subject d a =
    is_open a
    && same_kind a.kind d.kind
    && same_clock a.item_id d.item_id
    && same_clock a.account_id d.account_id

abbrev pub item_exists : List ItemHealth → Option ℕ → Bool
item_exists items none = true
item_exists items (some n) = any (λ i. i.id == n) items

abbrev pub account_exists : List AccountRow → Option ℕ → Bool
account_exists accounts none = true
account_exists accounts (some n) = any (λ (a : AccountRow). a.id == n) accounts

abbrev pub raised_alert : List Alert → AlertDraft → Alert
raised_alert rows d = record {
  draft = d;
  id = next_alert_id rows;
  notified_at = none;
  acknowledged_at = none;
  resolved_at = none;
}

-- `AlertRepository.raise_alert`
unfoldable pub raise_alert : Database → AlertDraft → Result (Alert × Database)
raise_alert db d = do
  raise_if (any (same_subject d) db.alerts) alert_already_open
  raise_if (not (item_exists db.items d.item_id && account_exists db.accounts d.account_id))
      foreign_key
  a ← new_alert (raised_alert db.alerts d)
  ok (a, record db { alerts = db.alerts ++ a ∷ [] })

-- `UPDATE alert SET ... WHERE id = ?`
abbrev pub update_alerts : (Alert → Alert) → ℕ → List Alert → List Alert
update_alerts f alert_id [] = []
update_alerts f alert_id (a ∷ rest) =
    (if a.id == alert_id then f a else a) ∷ update_alerts f alert_id rest

abbrev pub or_alert_missing : Option Alert → Result Alert
or_alert_missing none = err alert_not_found
or_alert_missing (some a) = ok a

-- The alert of an id, which must be open.
unfoldable pub get_open : List Alert → ℕ → Result Alert
unfolding get_alert
get_open rows alert_id = do
  found ← get_alert rows alert_id
  existing ← or_alert_missing found
  raise_if (not (is_open existing)) alert_not_found
  ok existing

-- `SET ... RETURNING` on one row: the row that the table then holds.
unfoldable pub write_alert : Database → (Alert → Alert) → ℕ → Alert → Result (Alert × Database)
unfolding alert_from_row
write_alert db f alert_id existing = do
  a ← alert_from_row (f existing)
  ok (a, record db { alerts = update_alerts f alert_id db.alerts })

-- The two columns that `_stamp` writes.
pub data Column : Type 0 where
  notified resolved : Column

abbrev pub column_value : Column → Alert → Option ℕ
column_value notified a = a.notified_at
column_value resolved a = a.resolved_at

abbrev pub set_column : Column → ℕ → Alert → Alert
set_column notified at a = record a { notified_at = some at }
set_column resolved at a = record a { resolved_at = some at }

abbrev pub is_before : ℕ → Option ℕ → Bool
is_before at none = false
is_before at (some clock) = ltb at clock

-- `AlertRepository._stamp`
unfoldable pub stamp : Database → Column → ℕ → ℕ → Result (Alert × Database)
unfolding get_open write_alert
stamp db column alert_id at = do
  existing ← get_open db.alerts alert_id
  raise_if (ltb at existing.created_at) alert_value
  raise_if (is_before at (column_value column existing)) alert_value
  write_alert db (set_column column at) alert_id existing

-- `AlertRepository.mark_notified`
abbrev pub mark_notified : Database → ℕ → ℕ → Result (Alert × Database)
mark_notified db alert_id at = stamp db notified alert_id at

-- `AlertRepository.resolve`
abbrev pub resolve : Database → ℕ → ℕ → Result (Alert × Database)
resolve db alert_id at = stamp db resolved alert_id at

abbrev pub set_source : ℕ → Alert → Alert
set_source to a = record a { draft = record a.draft { raised_source_as_of = some to } }

-- `to <= current`, and the refusal of a missing clock
abbrev pub is_forward : Option ℕ → ℕ → Bool
is_forward none to = false
is_forward (some current) to = ltb current to

-- `AlertRepository.advance_source_clock`
unfoldable pub advance_source_clock : Database → ℕ → ℕ → Result (Alert × Database)
unfolding get_open write_alert
advance_source_clock db alert_id to = do
  existing ← get_open db.alerts alert_id
  raise_if (not (carries_source_clock existing.kind)) alert_value
  raise_if (not (is_forward existing.raised_source_as_of to)) alert_value
  write_alert db (set_source to) alert_id existing
