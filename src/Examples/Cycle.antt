-- ===== src/Examples/Cycle.antt =====
-- A cycle over one account that waits for its reconciliation.
use networth.Prelude.{none, [], ◌∷◌}
use networth.Model.Freshness.{synced_balance}
use networth.Model.Account.{new}
use networth.Model.Alert.{pending_reconciliation, Alert}
use networth.Store.Tables.{Database}
use networth.Alerts.{Evaluation, account_draft}
use networth.Examples.Data.{noon, brokerage_item, account_row, household}

abbrev tables : Database
tables = record household {
  accounts = account_row 1 synced_balance new ∷ [];
  items = brokerage_item ∷ [];
}

abbrev pending_alert : Alert
pending_alert = record {
  draft = account_draft noon 1 pending_reconciliation none;
  id = 1;
  notified_at = none;
  acknowledged_at = none;
  resolved_at = none;
}

abbrev evaluation : Evaluation
evaluation = record {
  database = record tables { alerts = pending_alert ∷ [] };
  raised = pending_alert ∷ [];
  resolved = [];
}
