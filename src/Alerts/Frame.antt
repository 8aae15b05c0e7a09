-- ===== src/Alerts/Frame.antt =====
-- Which alerts an evaluation may touch: those of the subjects that its caller reports.
use networth.Prelude.{
  ℕ, ◌≡◌, ◌≢◌, subst, Bool, false, not, ◌&&◌, ◌||◌, Option, none, some, List, [], ◌∷◌, keep,
  keep-In, any, All, All-In, All-of_In, Bool-cases, inl, inr,
}
use networth.Prelude.Result.{ok, >>=-eq-ok, ok-injective}
use networth.Model.Item.{ItemHealth, is_healthy, is_some}
use networth.Model.Alert.{AlertKind, same_kind, for_item_state, AlertDraft, new_alert_draft, Alert}
use networth.Store.Alerts.{raise_alert, resolved, stamp}
use networth.Store.AlertRows.{Keeps, Keeps-stamp, Keeps-raise_alert}
use networth.Alerts.{
  Evaluation, is_id, for_item, resolve_one, raise_one, is_wanted, item_draft, resolve_others,
  raise_wanted, evaluate_item,
}

-- A step of an evaluation leaves the alert of an id alone.
abbrev pub KeepsIn : ℕ → Evaluation → Evaluation → Type 0
KeepsIn k e e' = Keeps k e.database.alerts e'.database.alerts

pub KeepsIn-same : (k : ℕ) (e e' : Evaluation) → ok e ≡ ok e' → KeepsIn k e e'
KeepsIn-same k e e' h = subst (λ (x : Evaluation). KeepsIn k e x) (ok-injective h) (λ r q. q)

module _ (k : ℕ) (at : ℕ) where
  pub Keeps-resolve_one :
      (a : Alert) (e : Evaluation) {e' : Evaluation}
      → a.id ≢ k
      → resolve_one at a e ≡ ok e'
      → KeepsIn k e e'
  unfolding resolve_one
  Keeps-resolve_one a e differ h =
      let (p, ran, built) = >>=-eq-ok (stamp e.database resolved a.id at) _ h in
      subst (λ (x : Evaluation). KeepsIn k e x) (ok-injective built)
        (Keeps-stamp k e.database resolved a.id at differ ran)

  pub Keeps-raise_one :
      (d : AlertDraft) (e : Evaluation) {e' : Evaluation} → raise_one d e ≡ ok e' → KeepsIn k e e'
  unfolding raise_one
  Keeps-raise_one d e h =
      let (d', checked, rest) = >>=-eq-ok (new_alert_draft d) _ h in
      let (p, ran, built) = >>=-eq-ok (raise_alert e.database d') _ rest in
      subst (λ (x : Evaluation). KeepsIn k e x) (ok-injective built)
        (Keeps-raise_alert k e.database d' ran)

  Keeps-resolve_others :
      (wanted : Option AlertKind) (supersedes : Bool) (existing : List Alert) (e : Evaluation)
      {e' : Evaluation}
      → All (λ a. a.id ≢ k) existing
      → resolve_others at wanted supersedes existing e ≡ ok e'
      → KeepsIn k e e'
  unfolding resolve_others
  Keeps-resolve_others wanted supersedes [] e {e'} differ h = KeepsIn-same k e e' h
  Keeps-resolve_others wanted supersedes (a ∷ rest) e (differ, more) h =
      elim (Bool-cases (not (is_wanted wanted a) && supersedes)) [
        | inl q ↦
            let (e1, ran, after) = >>=-eq-ok (resolve_one at a e) _ (rw q at h) in
            λ r q'.
              Keeps-resolve_others wanted supersedes rest e1 more after r
                (Keeps-resolve_one a e differ ran r q')
        | inr q ↦ Keeps-resolve_others wanted supersedes rest e more (rw q at h)
      ]

  Keeps-raise_wanted :
      (item_id : ℕ) (wanted : Option AlertKind) (existing : List Alert) (e : Evaluation)
      {e' : Evaluation}
      → raise_wanted at item_id wanted existing e ≡ ok e'
      → KeepsIn k e e'
  Keeps-raise_wanted item_id none existing e {e'} h = KeepsIn-same k e e' h
  Keeps-raise_wanted item_id (some kind) existing e {e'} h =
      elim (Bool-cases (any (λ a. same_kind a.kind kind) existing)) [
        | inl q ↦ KeepsIn-same k e e' (rw q at h)
        | inr q ↦ Keeps-raise_one (item_draft at item_id kind) e (rw q at h)
      ]

  -- The open alert of the id, if any, is not among those that a test selects.
  pub differ-keep :
      (p : Alert → Bool) (opened : List Alert)
      → All (λ a. a.id ≡ k → p a ≡ false) opened
      → All (λ a. a.id ≢ k) (keep p opened)
  differ-keep p opened h =
      All-of_In (λ a. a.id ≢ k) (keep p opened)
        (λ a m q.
          let (m', selected) = keep-In p a opened m in
          let other : p a ≡ false = All-In a (λ a. a.id ≡ k → p a ≡ false) opened h m' q in cc)

  pub Keeps-evaluate_item :
      (opened : List Alert) (i : ItemHealth) (e : Evaluation) {e' : Evaluation}
      → All (λ a. a.id ≡ k → is_id i.id a.item_id ≡ false) opened
      → evaluate_item at opened i e ≡ ok e'
      → KeepsIn k e e'
  unfolding evaluate_item
  Keeps-evaluate_item opened i e other h =
      let wanted = for_item_state i.status in
      let existing = for_item i.id opened in
      let supersedes = is_healthy i.status || is_some wanted in
      let (e1, ran, after) = >>=-eq-ok (resolve_others at wanted supersedes existing e) _ h in
      λ r q. Keeps-raise_wanted i.id wanted existing e1 after r (
        Keeps-resolve_others wanted supersedes existing e
          (differ-keep (λ a. is_id i.id a.item_id) opened other) ran r q)
