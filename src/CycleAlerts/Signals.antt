-- ===== src/CycleAlerts/Signals.antt =====
-- What a cycle tells the alert evaluator of each account.
use networth.Prelude.{◌≡◌, true, none, List, [], ◌∷◌}
use networth.Calendar.Market.{Calendar}
use networth.Model.Observation.{Observation}
use networth.Model.Account.{SnapshotAccount, is_new}
use networth.Alerts.{AccountSignal}
use networth.CycleAlerts.{share_count}

-- A signal that says of an account what the store does: an account not yet reconciled is pending, and
-- nothing is said of its freshness. Its manual side was read.
pub record IsSignalOf (account : SnapshotAccount) (s : AccountSignal) : Type 0 where
  pub same_account : s.account_id ≡ account.id
  pub pending : s.is_pending_reconciliation ≡ is_new account.reconciliation_state
  pub silent : is_new account.reconciliation_state ≡ true → s.freshness ≡ none
  pub manual_side_read : s.share_count ≡ none → ⊥

-- The signals of a list of accounts, one for each, in order.
abbrev pub AreSignalsOf : List SnapshotAccount → List AccountSignal → Type 0
AreSignalsOf [] [] = Unit {0}
AreSignalsOf (account ∷ accounts) (s ∷ signals) =
    IsSignalOf account s × AreSignalsOf accounts signals
AreSignalsOf _ _ = ⊥
