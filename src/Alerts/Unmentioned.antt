-- ===== src/Alerts/Unmentioned.antt =====
-- `evaluate` says nothing of a subject that its caller does not report.
use networth.Prelude.{ℕ, ◌≡◌, false, some, List, [], ◌∷◌, ◌==◌, All, All-map, All-In, All-of_In}
use networth.Prelude.Result.{Result, ok, >>=-eq-ok}
use networth.Model.Item.{ItemHealth}
use networth.Model.Alert.{frozen_data, pending_reconciliation, share_count_unconfirmed, Alert}
use networth.Store.Tables.{Database, find}
use networth.Store.Alerts.{open_alerts}
use networth.Alerts.{
  AccountSignal, Evaluation, is_id, for_account, of_kind, refuse_future_clocks, evaluate_item,
  evaluate_frozen, evaluate_reconciliation, evaluate_account, each, evaluate,
}
use networth.Alerts.Frame.{KeepsIn, KeepsIn-same, differ-keep, Keeps-evaluate_item}
use networth.Alerts.AccountFrame.{
  of_kind-Other, Keeps-evaluate_frozen, Keeps-evaluate_reconciliation, Keeps-evaluate_share_count,
}

-- An alert about none of the reported Items and accounts.
abbrev pub IsUnmentioned : List ItemHealth → List AccountSignal → Alert → Type 0
IsUnmentioned items accounts a =
    All (λ (i : ItemHealth). is_id i.id a.item_id ≡ false) items
    × All (λ (s : AccountSignal). is_id s.account_id a.account_id ≡ false) accounts

module _ (k : ℕ) (at : ℕ) where
  Keeps-evaluate_account :
      (opened : List Alert) (s : AccountSignal) (e : Evaluation) {e' : Evaluation}
      → All (λ a. a.id ≡ k → is_id s.account_id a.account_id ≡ false) opened
      → evaluate_account at opened s e ≡ ok e'
      → KeepsIn k e e'
  unfolding evaluate_account
  Keeps-evaluate_account opened s e other h =
      let existing = for_account s.account_id opened in
      let differ = differ-keep k at (λ a. is_id s.account_id a.account_id) opened other in
      let (e1, ran1, rest1) =
        >>=-eq-ok (evaluate_frozen at s.account_id s.freshness (of_kind frozen_data existing) e) _
          h in
      let (e2, ran2, rest2) =
        >>=-eq-ok
          (evaluate_reconciliation at s.account_id s.is_pending_reconciliation
            (of_kind pending_reconciliation existing) e1)
          _ rest1 in
      λ r q.
        Keeps-evaluate_share_count k at s.account_id s.share_count _ e2
          (of_kind-Other k at share_count_unconfirmed existing differ) rest2 r
          (Keeps-evaluate_reconciliation k at s.account_id s.is_pending_reconciliation _ e1
            (of_kind-Other k at pending_reconciliation existing differ) ran2 r
            (Keeps-evaluate_frozen k at s.account_id s.freshness _ e
              (of_kind-Other k at frozen_data existing differ) ran1 r q))

  Keeps-each :
      {A : Type 0} (step : A → Evaluation → Result Evaluation) (xs : List A) (e : Evaluation)
      {e' : Evaluation}
      → All (λ x. (e e' : Evaluation) → step x e ≡ ok e' → KeepsIn k e e') xs
      → each step xs e ≡ ok e'
      → KeepsIn k e e'
  unfolding each
  Keeps-each step [] e {e'} keeps h = KeepsIn-same k e e' h
  Keeps-each step (x ∷ xs) e (keep_x, keeps) h =
      let (e1, ran, after) = >>=-eq-ok (step x e) _ h in
      λ r q. Keeps-each step xs e1 keeps after r (keep_x e e1 ran r q)

-- An evaluation leaves an alert alone, whether it is resolved or open, if no open alert of its id is
-- about a reported subject.
pub evaluate-unmentioned :
    (at : ℕ) (items : List ItemHealth) (accounts : List AccountSignal) (db : Database)
    (opened : List Alert) (r : Alert) (e : Evaluation)
    → evaluate at items accounts db ≡ ok e
    → open_alerts db.alerts ≡ ok opened
    → All (λ a. a.id ≡ r.id → IsUnmentioned items accounts a) opened
    → find (λ a. a.id == r.id) db.alerts ≡ some r
    → find (λ a. a.id == r.id) e.database.alerts ≡ some r
unfolding evaluate
evaluate-unmentioned at items accounts db opened r e h reads other found =
    let (_, refused, h1) = >>=-eq-ok (refuse_future_clocks at accounts) _ h in
    let h2 = (rw reads at h1) in
    let start : Evaluation = record { database = db; raised = []; resolved = [] } in
    let (e1, ran, after) = >>=-eq-ok (each (evaluate_item at opened) items start) _ h2 in
    let k = r.id in
    Keeps-each k at (evaluate_account at opened) accounts e1
      (All-of_In _ accounts (λ s m. λ e e' ran.
        Keeps-evaluate_account k at opened s e
          (All-map _ _ opened (λ a f same_id. All-In s _ accounts (f same_id).1 m) other) ran))
      after r
      (Keeps-each k at (evaluate_item at opened) items start
        (All-of_In _ items (λ i m. λ e e' ran.
          Keeps-evaluate_item k at opened i e
            (All-map _ _ opened (λ a f same_id. All-In i _ items (f same_id).0 m) other) ran))
        ran r found)
