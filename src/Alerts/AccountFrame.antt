-- ===== src/Alerts/AccountFrame.antt =====
-- Which alerts the account steps of an evaluation may touch.
use networth.Prelude.{
  ℕ, ◌+◌, ◌≡◌, ◌≢◌, ◌∙◌, subst, Bool, true, false, Option, none, some, List, [], ◌∷◌, leb, All,
  Bool-cases, Option-cases, inl, inr,
}
use networth.Prelude.Result.{ok, >>=-eq-ok, ok-injective}
use networth.Model.Freshness.{FreshnessAssessment, is_frozen}
use networth.Model.Alert.{
  AlertKind, frozen_data, pending_reconciliation, share_count_unconfirmed, same_kind, Alert,
}
use networth.Store.Alerts.{advance_source_clock}
use networth.Store.AlertRows.{Keeps-advance_source_clock}
use networth.Alerts.Frame.{KeepsIn, KeepsIn-same, Keeps-resolve_one, Keeps-raise_one}
use networth.Alerts.{
  ShareCountObservation, Evaluation, of_kind, resolve_one, account_draft, advance_frozen,
  evaluate_frozen, reconfirm_share_count_after, evaluate_reconciliation, nudge, renew_nudge,
  share_count_step, evaluate_share_count,
}

some-injective {ℓ} : {A : Type ℓ} {a b : A} → some a ≡ some b → a ≡ b
some-injective h = cc

module _ (k : ℕ) (at : ℕ) where
  -- An alert that a lookup by kind finds is one of the list's.
  of_kind-All :
      (P : Alert → Type 0) (kind : AlertKind) (alerts : List Alert) (a : Alert)
      → All P alerts
      → of_kind kind alerts ≡ some a
      → P a
  unfolding of_kind
  of_kind-All P kind [] a h q = cc
  of_kind-All P kind (x ∷ xs) a h q = elim (Option-cases (of_kind kind xs)) [
    | inr (b, found) ↦ of_kind-All P kind xs a h.1 (found ∙ (rw (of_kind, found) at q))
    | inl none_found ↦ elim (Bool-cases (same_kind x.kind kind)) [
      | inl s ↦
          let e : some x ≡ some a = (rw (of_kind, none_found, s) at q) in
          subst P (some-injective e) h.0
      | inr s ↦ let e : none ≡ some a = (rw (of_kind, none_found, s) at q) in cc
    ]
  ]

  -- The alert that a step is given is not the one of the id.
  abbrev pub Other : Option Alert → Type 0
  Other none = Unit {0}
  Other (some a) = a.id ≢ k

  pub of_kind-Other :
      (kind : AlertKind) (alerts : List Alert)
      → All (λ a. a.id ≢ k) alerts
      → Other (of_kind kind alerts)
  of_kind-Other kind alerts h = elim (Option-cases (of_kind kind alerts)) [
    | inl e ↦ rw e tt
    | inr (a, e) ↦ rw e (of_kind-All (λ a. a.id ≢ k) kind alerts a h e)
  ]

  Keeps-advance_frozen :
      (a : Alert) (assessment : FreshnessAssessment) (was source : Option ℕ) (e : Evaluation)
      {e' : Evaluation}
      → a.id ≢ k
      → advance_frozen at a assessment was source e ≡ ok e'
      → KeepsIn k e e'
  Keeps-advance_frozen a assessment none source e differ h = cc
  Keeps-advance_frozen a assessment (some was) none e {e'} differ h = KeepsIn-same k e e' h
  Keeps-advance_frozen a assessment (some was) (some source) e {e'} differ h =
      elim (Bool-cases (leb source was)) [
        | inl q ↦ KeepsIn-same k e e' (rw q at h)
        | inr q ↦ elim (Bool-cases (is_frozen assessment.state)) [
          | inl s ↦
              let (p, ran, built) =
                >>=-eq-ok (advance_source_clock e.database a.id source) _ (rw (q, s) at h) in
              subst (λ (x : Evaluation). KeepsIn k e x) (ok-injective built)
                (Keeps-advance_source_clock k e.database a.id source differ ran)
          | inr s ↦ Keeps-resolve_one k at a e differ (rw (q, s) at h)
        ]
      ]

  pub Keeps-evaluate_frozen :
      (account_id : ℕ) (f : Option FreshnessAssessment) (open_alert : Option Alert) (e : Evaluation)
      {e' : Evaluation}
      → Other open_alert
      → evaluate_frozen at account_id f open_alert e ≡ ok e'
      → KeepsIn k e e'
  unfolding evaluate_frozen
  Keeps-evaluate_frozen account_id none open_alert e {e'} other h = KeepsIn-same k e e' h
  Keeps-evaluate_frozen account_id (some f) none e {e'} other h =
      elim (Bool-cases (is_frozen f.state)) [
        | inl q ↦
            Keeps-raise_one k at (account_draft at account_id frozen_data f.source_as_of) e
              (rw q at h)
        | inr q ↦ KeepsIn-same k e e' (rw q at h)
      ]
  Keeps-evaluate_frozen account_id (some f) (some a) e other h =
      Keeps-advance_frozen a f a.raised_source_as_of f.source_as_of e other h

  pub Keeps-evaluate_reconciliation :
      (account_id : ℕ) (pending : Bool) (open_alert : Option Alert) (e : Evaluation)
      {e' : Evaluation}
      → Other open_alert
      → evaluate_reconciliation at account_id pending open_alert e ≡ ok e'
      → KeepsIn k e e'
  unfolding evaluate_reconciliation
  Keeps-evaluate_reconciliation account_id true none e other h =
      Keeps-raise_one k at (account_draft at account_id pending_reconciliation none) e h
  Keeps-evaluate_reconciliation account_id true (some a) e {e'} other h = KeepsIn-same k e e' h
  Keeps-evaluate_reconciliation account_id false none e {e'} other h = KeepsIn-same k e e' h
  Keeps-evaluate_reconciliation account_id false (some a) e other h =
      Keeps-resolve_one k at a e other h

  Keeps-nudge :
      (account_id set_on : ℕ) (e : Evaluation) {e' : Evaluation}
      → nudge at account_id set_on e ≡ ok e'
      → KeepsIn k e e'
  Keeps-nudge account_id set_on e {e'} h =
      elim (Bool-cases (leb (set_on + reconfirm_share_count_after) at)) [
        | inl q ↦
            Keeps-raise_one k at (account_draft at account_id share_count_unconfirmed (some set_on))
              e (rw q at h)
        | inr q ↦ KeepsIn-same k e e' (rw q at h)
      ]

  Keeps-renew_nudge :
      (account_id set_on : ℕ) (a : Alert) (was : Option ℕ) (e : Evaluation) {e' : Evaluation}
      → a.id ≢ k
      → renew_nudge at account_id set_on a was e ≡ ok e'
      → KeepsIn k e e'
  Keeps-renew_nudge account_id set_on a none e differ h = cc
  Keeps-renew_nudge account_id set_on a (some was) e {e'} differ h =
      elim (Bool-cases (leb set_on was)) [
        | inl q ↦ KeepsIn-same k e e' (rw q at h)
        | inr q ↦
            let (e1, ran, after) = >>=-eq-ok (resolve_one at a e) _ (rw q at h) in
            λ r m.
              Keeps-nudge account_id set_on e1 after r (Keeps-resolve_one k at a e differ ran r m)
      ]

  Keeps-share_count_step :
      (account_id : ℕ) (set_on : Option ℕ) (open_alert : Option Alert) (e : Evaluation)
      {e' : Evaluation}
      → Other open_alert
      → share_count_step at account_id set_on open_alert e ≡ ok e'
      → KeepsIn k e e'
  Keeps-share_count_step account_id none none e {e'} other h = KeepsIn-same k e e' h
  Keeps-share_count_step account_id none (some a) e other h = Keeps-resolve_one k at a e other h
  Keeps-share_count_step account_id (some set_on) none e other h = Keeps-nudge account_id set_on e h
  Keeps-share_count_step account_id (some set_on) (some a) e other h =
      Keeps-renew_nudge account_id set_on a a.raised_source_as_of e other h

  pub Keeps-evaluate_share_count :
      (account_id : ℕ) (o : Option ShareCountObservation) (open_alert : Option Alert)
      (e : Evaluation) {e' : Evaluation}
      → Other open_alert
      → evaluate_share_count at account_id o open_alert e ≡ ok e'
      → KeepsIn k e e'
  unfolding evaluate_share_count
  Keeps-evaluate_share_count account_id none open_alert e {e'} other h = KeepsIn-same k e e' h
  Keeps-evaluate_share_count account_id (some o) open_alert e other h =
      Keeps-share_count_step account_id o.confirmed_on open_alert e other h
