-- ===== src/Alerts/OnlyAlerts.antt =====
-- An evaluation of the alerts writes no other table.
use networth.Prelude.{
  ◌+◌, if◌then◌else◌, ℕ, ◌≡◌, ◌∙◌, ap, Bool, true, false, not, ◌&&◌, ◌||◌, Option, none, some, List,
  [], ◌∷◌, any, leb,
}
use networth.Prelude.Result.{Result, ok, ◌>>=◌, >>=-eq-ok, ok-injective}
use networth.Model.Item.{ItemHealth, is_healthy, is_some}
use networth.Model.Alert.{
  AlertKind, same_kind, for_item_state, AlertDraft, new_alert_draft, Alert, frozen_data,
  pending_reconciliation, share_count_unconfirmed,
}
use networth.Store.Tables.{Database}
use networth.Store.Alerts.{raise_alert, stamp, resolved, advance_source_clock, open_alerts}
use networth.Alerts.{
  Evaluation, resolve_one, raise_one, is_wanted, item_draft, for_item, for_account, of_kind,
  resolve_others, raise_wanted, evaluate_item, evaluate_account, each, evaluate,
  refuse_future_clocks, evaluate_frozen, advance_frozen, account_draft, evaluate_reconciliation,
  evaluate_share_count, nudge, renew_nudge, share_count_step, reconfirm_share_count_after,
  AccountSignal, FreshnessAssessment, is_frozen, ShareCountObservation,
}
use networth.Store.OnlyAlerts.{
  without_alerts, OnlyAlerts, stamp-OnlyAlerts, advance-OnlyAlerts, raise_alert-OnlyAlerts,
}

abbrev Touches : Evaluation → Evaluation → Type 0
Touches e e' = OnlyAlerts e.database e'.database

same-Touches : (e e' : Evaluation) → ok e ≡ ok e' → Touches e e'
same-Touches e e' h = ap (λ (x : Evaluation). without_alerts x.database) (ok-injective h)

module _ (at : ℕ) where
  resolve_one-Touches : (a : Alert) (e e' : Evaluation) → resolve_one at a e ≡ ok e' → Touches e e'
  unfolding resolve_one
  resolve_one-Touches a e e' h =
      let ((b, db), ran, built) = >>=-eq-ok (stamp e.database resolved a.id at) _ h in
      stamp-OnlyAlerts e.database a.id at b db ran
      ∙ ap (λ (x : Evaluation). without_alerts x.database) (ok-injective built)

  raise_one-Touches : (d : AlertDraft) (e e' : Evaluation) → raise_one d e ≡ ok e' → Touches e e'
  unfolding raise_one
  raise_one-Touches d e e' h =
      let (d', checked, rest) = >>=-eq-ok (new_alert_draft d) _ h in
      let ((b, db), ran, built) = >>=-eq-ok (raise_alert e.database d') _ rest in
      raise_alert-OnlyAlerts e.database d' b db ran
      ∙ ap (λ (x : Evaluation). without_alerts x.database) (ok-injective built)

  -- Either of two outcomes of a test.
  if-Touches :
      (b : Bool) (e e' : Evaluation) (first second : Result Evaluation)
      → (first ≡ ok e' → Touches e e')
      → (second ≡ ok e' → Touches e e')
      → (if b then first else second) ≡ ok e'
      → Touches e e'
  if-Touches true e e' first second f g h = f h
  if-Touches false e e' first second f g h = g h

  resolve_others-Touches :
      (wanted : Option AlertKind) (supersedes : Bool) (existing : List Alert) (e e' : Evaluation)
      → resolve_others at wanted supersedes existing e ≡ ok e'
      → Touches e e'
  unfolding resolve_others
  resolve_others-Touches wanted supersedes [] e e' h = same-Touches e e' h
  resolve_others-Touches wanted supersedes (a ∷ rest) e e' h =
      let (e1, ran, after) =
        >>=-eq-ok (if not (is_wanted wanted a) && supersedes then resolve_one at a e else ok e) _
          h in
      if-Touches (not (is_wanted wanted a) && supersedes) e e1 (resolve_one at a e) (ok e)
        (resolve_one-Touches a e e1) (same-Touches e e1) ran
      ∙ resolve_others-Touches wanted supersedes rest e1 e' after

  raise_wanted-Touches :
      (item_id : ℕ) (wanted : Option AlertKind) (existing : List Alert) (e e' : Evaluation)
      → raise_wanted at item_id wanted existing e ≡ ok e'
      → Touches e e'
  raise_wanted-Touches item_id none existing e e' h = same-Touches e e' h
  raise_wanted-Touches item_id (some kind) existing e e' h =
      if-Touches (any (λ a. same_kind a.kind kind) existing) e e' (ok e)
        (raise_one (item_draft at item_id kind) e) (same-Touches e e')
        (raise_one-Touches (item_draft at item_id kind) e e') h

  evaluate_item-Touches :
      (opened : List Alert) (i : ItemHealth) (e e' : Evaluation)
      → evaluate_item at opened i e ≡ ok e'
      → Touches e e'
  unfolding evaluate_item
  evaluate_item-Touches opened i e e' h =
      let wanted = for_item_state i.status in
      let existing = for_item i.id opened in
      let supersedes = is_healthy i.status || is_some wanted in
      let (e1, ran, after) = >>=-eq-ok (resolve_others at wanted supersedes existing e) _ h in
      resolve_others-Touches wanted supersedes existing e e1 ran
      ∙ raise_wanted-Touches i.id wanted existing e1 e' after

  advance_frozen-Touches :
      (a : Alert) (s : FreshnessAssessment) (raised source : Option ℕ) (e e' : Evaluation)
      → advance_frozen at a s raised source e ≡ ok e'
      → Touches e e'
  advance_frozen-Touches a s none source e e' h = cc
  advance_frozen-Touches a s (some r) none e e' h = same-Touches e e' h
  advance_frozen-Touches a s (some r) (some c) e e' h =
      let forward : Result Evaluation = (do
        (_, db) ← advance_source_clock e.database a.id c
        ok (record { database = db; raised = e.raised; resolved = e.resolved })) in
      if-Touches (leb c r) e e' (ok e) (if is_frozen s.state then forward else resolve_one at a e)
        (same-Touches e e')
        (if-Touches (is_frozen s.state) e e' forward (resolve_one at a e)
          (λ h1.
            let ((b, db), ran, built) = >>=-eq-ok (advance_source_clock e.database a.id c) _ h1 in
            advance-OnlyAlerts e.database a.id c b db ran
            ∙ ap (λ (x : Evaluation). without_alerts x.database) (ok-injective built))
          (resolve_one-Touches a e e'))
        h

  evaluate_frozen-Touches :
      (account_id : ℕ) (s : Option FreshnessAssessment) (a : Option Alert) (e e' : Evaluation)
      → evaluate_frozen at account_id s a e ≡ ok e'
      → Touches e e'
  unfolding evaluate_frozen
  evaluate_frozen-Touches account_id none a e e' h = same-Touches e e' h
  evaluate_frozen-Touches account_id (some s) none e e' h =
      let draft = account_draft at account_id frozen_data s.source_as_of in
      if-Touches (is_frozen s.state) e e' (raise_one draft e) (ok e) (raise_one-Touches draft e e')
        (same-Touches e e') h
  evaluate_frozen-Touches account_id (some s) (some a) e e' h =
      advance_frozen-Touches a s a.raised_source_as_of s.source_as_of e e' h

  evaluate_reconciliation-Touches :
      (account_id : ℕ) (pending : Bool) (a : Option Alert) (e e' : Evaluation)
      → evaluate_reconciliation at account_id pending a e ≡ ok e'
      → Touches e e'
  unfolding evaluate_reconciliation
  evaluate_reconciliation-Touches account_id true none e e' h = raise_one-Touches _ e e' h
  evaluate_reconciliation-Touches account_id true (some a) e e' h = same-Touches e e' h
  evaluate_reconciliation-Touches account_id false none e e' h = same-Touches e e' h
  evaluate_reconciliation-Touches account_id false (some a) e e' h = resolve_one-Touches a e e' h

  nudge-Touches :
      (account_id set_on : ℕ) (e e' : Evaluation)
      → nudge at account_id set_on e ≡ ok e'
      → Touches e e'
  nudge-Touches account_id set_on e e' h =
      let draft = account_draft at account_id share_count_unconfirmed (some set_on) in
      if-Touches (leb (set_on + reconfirm_share_count_after) at) e e' (raise_one draft e) (ok e)
        (raise_one-Touches draft e e') (same-Touches e e') h

  renew_nudge-Touches :
      (account_id set_on : ℕ) (a : Alert) (raised : Option ℕ) (e e' : Evaluation)
      → renew_nudge at account_id set_on a raised e ≡ ok e'
      → Touches e e'
  renew_nudge-Touches account_id set_on a none e e' h = cc
  renew_nudge-Touches account_id set_on a (some r) e e' h =
      if-Touches (leb set_on r) e e' (ok e) (resolve_one at a e >>= nudge at account_id set_on)
        (same-Touches e e')
        (λ h1.
          let (e1, ran, after) = >>=-eq-ok (resolve_one at a e) _ h1 in
          resolve_one-Touches a e e1 ran ∙ nudge-Touches account_id set_on e1 e' after)
        h

  share_count_step-Touches :
      (account_id : ℕ) (confirmed : Option ℕ) (a : Option Alert) (e e' : Evaluation)
      → share_count_step at account_id confirmed a e ≡ ok e'
      → Touches e e'
  share_count_step-Touches account_id none none e e' h = same-Touches e e' h
  share_count_step-Touches account_id none (some a) e e' h = resolve_one-Touches a e e' h
  share_count_step-Touches account_id (some set_on) none e e' h =
      nudge-Touches account_id set_on e e' h
  share_count_step-Touches account_id (some set_on) (some a) e e' h =
      renew_nudge-Touches account_id set_on a a.raised_source_as_of e e' h

  evaluate_share_count-Touches :
      (account_id : ℕ) (o : Option ShareCountObservation) (a : Option Alert) (e e' : Evaluation)
      → evaluate_share_count at account_id o a e ≡ ok e'
      → Touches e e'
  unfolding evaluate_share_count
  evaluate_share_count-Touches account_id none a e e' h = same-Touches e e' h
  evaluate_share_count-Touches account_id (some o) a e e' h =
      share_count_step-Touches account_id o.confirmed_on a e e' h

  evaluate_account-Touches :
      (opened : List Alert) (s : AccountSignal) (e e' : Evaluation)
      → evaluate_account at opened s e ≡ ok e'
      → Touches e e'
  unfolding evaluate_account
  evaluate_account-Touches opened s e e' h =
      let existing = for_account s.account_id opened in
      let (e1, frozen, h1) =
        >>=-eq-ok (evaluate_frozen at s.account_id s.freshness (of_kind frozen_data existing) e) _
          h in
      let (e2, reconciled, h2) =
        >>=-eq-ok
          (evaluate_reconciliation at s.account_id s.is_pending_reconciliation
            (of_kind pending_reconciliation existing) e1)
          _ h1 in
      evaluate_frozen-Touches s.account_id s.freshness _ e e1 frozen
      ∙ evaluate_reconciliation-Touches s.account_id s.is_pending_reconciliation _ e1 e2 reconciled
      ∙ evaluate_share_count-Touches s.account_id s.share_count _ e2 e' h2

each-Touches :
    {A : Type 0} (step : A → Evaluation → Result Evaluation)
    → ((x : A) (e e' : Evaluation) → step x e ≡ ok e' → Touches e e')
    → (xs : List A) (e e' : Evaluation) → each step xs e ≡ ok e'
    → Touches e e'
unfolding each
each-Touches step f [] e e' h = same-Touches e e' h
each-Touches step f (x ∷ xs) e e' h =
    let (e1, ran, after) = >>=-eq-ok (step x e) _ h in
    f x e e1 ran ∙ each-Touches step f xs e1 e' after

-- An evaluation that returns differs from its tables in the alerts at most.
pub evaluate-OnlyAlerts :
    (at : ℕ) (items : List ItemHealth) (accounts : List AccountSignal) (db : Database)
    (e : Evaluation)
    → evaluate at items accounts db ≡ ok e
    → OnlyAlerts db e.database
unfolding evaluate
evaluate-OnlyAlerts at items accounts db e h =
    let (_, past, h1) = >>=-eq-ok (refuse_future_clocks at accounts) _ h in
    let (opened, read, h2) = >>=-eq-ok (open_alerts db.alerts) _ h1 in
    let start : Evaluation = record { database = db; raised = []; resolved = [] } in
    let (e1, ran, after) = >>=-eq-ok (each (evaluate_item at opened) items start) _ h2 in
    each-Touches (evaluate_item at opened) (evaluate_item-Touches at opened) items start e1 ran
    ∙ each-Touches (evaluate_account at opened) (evaluate_account-Touches at opened) accounts e1 e
        after
