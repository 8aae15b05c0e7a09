-- ===== src/Alerts/Bulletin.antt =====
-- networth/alerts.py: `AlertEvaluator.bulletin` and `record_prompted`, which decide what may prompt.
use networth.Prelude.{
  ℕ, ◌+◌, ◌*◌, Bool, true, Option, none, some, List, [], ◌∷◌, leb, if◌then◌else◌,
}
use networth.Prelude.Result.{Result, ok, ◌>>=◌}
use networth.Calendar.Dates.{hour}
use networth.Model.Alert.{Alert}
use networth.Store.Tables.{Database}
use networth.Store.Alerts.{open_alerts, mark_notified}

abbrev pub reprompt_after : ℕ
reprompt_after = 24 * hour

pub record DeliverableAlert : Type 0 where
  pub alert : Alert
  pub prompt : Bool

-- `_may_prompt`
abbrev pub may_prompt : ℕ → Option ℕ → Bool
may_prompt at none = true
may_prompt at (some notified_at) = leb (notified_at + reprompt_after) at

abbrev pub deliverables : ℕ → List Alert → List DeliverableAlert
deliverables at [] = []
deliverables at (a ∷ rest) =
    record { alert = a; prompt = may_prompt at a.notified_at } ∷ deliverables at rest

-- `AlertEvaluator.bulletin`
unfoldable pub bulletin : ℕ → Database → Result (List DeliverableAlert)
bulletin at db = open_alerts db.alerts >>= λ opened. ok (deliverables at opened)

-- `AlertEvaluator.record_prompted`: the stamped alerts, and the tables.
unfoldable pub record_prompted :
    ℕ → List DeliverableAlert → Database → Result (List Alert × Database)
record_prompted at [] db = ok ([], db)
record_prompted at (d ∷ rest) db =
    let quiet = record_prompted at rest db in
    if d.prompt
    then (do
      (a, db') ← mark_notified db d.alert.id at
      (stamped, db'') ← record_prompted at rest db'
      ok (a ∷ stamped, db''))
    else quiet
