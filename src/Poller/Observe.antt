-- ===== src/Poller/Observe.antt =====
-- What one poll may conclude from the client's answer.
use networth.Prelude.{
  ℕ, Bool, true, false, not, ◌&&◌, ◌||◌, ◌≡◌, refl, Option, none, some, String, arith,
  if◌then◌else◌, Bool-cases, inl, inr, eq_iff, ap, sym, subst,
}
use networth.Prelude.Result.{ok}
use networth.Model.Texts.{is_nonempty, nonempty_or_absent}
use networth.Model.Item.{
  healthy, degraded, ItemHealth, ItemHealthUpdate, new_item_health_update, carries_no_error,
  is_some, owner_actionable,
}
use networth.Plaid.{ItemStatus}
use networth.Poller.{
  names_other, is_healthy_state, validated_result, next_state, update_of, observe_status,
}

-- What the client hands over: texts without outer spaces, and a clock only where it observed one.
pub record IsReadable (s : ItemStatus) : Type 0 where
  pub code_readable : nonempty_or_absent s.classification.error_code ≡ true
  pub detail_readable : is_nonempty s.classification.detail ≡ true
  pub clock_observed :
      s.investments_status_observed ≡ false → s.investments_last_successful_update ≡ none

unobserved_clock :
    (observed : Bool) (clock : Option ℕ)
    → (observed ≡ false → clock ≡ none)
    → (not observed && is_some clock) ≡ false
unobserved_clock true clock h = refl
unobserved_clock false clock h = rw (h refl) refl

update_of-checks :
    (target : ItemHealth) (s : ItemStatus) (at : ℕ)
    → IsReadable s
    → new_item_health_update (update_of target s at) ≡ ok (update_of target s at)
unfolding new_item_health_update update_of
update_of-checks target s at h =
    let next = next_state target s.classification in
    let clock =
      unobserved_clock s.investments_status_observed s.investments_last_successful_update
        h.clock_observed in
    elim (Bool-cases (carries_no_error next)) [
      | inl e ↦ rw (clock, e) refl
      | inr e ↦ rw (clock, e, h.code_readable, h.detail_readable) refl
    ]

validated_result-IsReadable :
    (target : ItemHealth) (s : ItemStatus) → IsReadable s → IsReadable (validated_result target s)
unfolding validated_result is_nonempty
validated_result-IsReadable target s h =
    elim (Bool-cases (
      names_other target s.item_id
      || (is_healthy_state s.classification.state && not (is_some s.item_id)))) [
        | inl e ↦
            rw e
              (record { code_readable = refl; detail_readable = refl; clock_observed = λ _. refl })
        | inr e ↦ rw e h
      ]

-- An answer whose texts have no outer spaces, and whose clock is absent where it was not observed,
-- always gives an update: no check of `ItemHealthUpdate` refuses it.
pub observe_status_total :
    (target : ItemHealth) (s : ItemStatus) (at : ℕ)
    → IsReadable s
    → (u : ItemHealthUpdate) × (observe_status target s at ≡ ok u)
unfolding observe_status
observe_status_total target s at h =
    (_, update_of-checks target _ at (validated_result-IsReadable target s h))

-- The checks of an update change nothing.
pub new_item_health_update-eq : (x u : ItemHealthUpdate) → new_item_health_update x ≡ ok u → u ≡ x
unfolding new_item_health_update
new_item_health_update-eq x u h = ground arith

-- Past its checks, an observation is the update of the validated answer.
observe_status-eq :
    (target : ItemHealth) (s : ItemStatus) (at : ℕ) {u : ItemHealthUpdate}
    → observe_status target s at ≡ ok u
    → u ≡ update_of target (validated_result target s) at
unfolding observe_status
observe_status-eq target s at h = new_item_health_update-eq _ _ h

named_exactly :
    (target : ItemHealth) (id : Option String)
    → names_other target id ≡ false
    → is_some id ≡ true
    → id ≡ some target.plaid_item_id
named_exactly target none h some_id = cc
named_exactly target (some id) h some_id =
    ap some ((eq_iff id target.plaid_item_id).0 (ground arith))

-- A poll calls an Item HEALTHY only if the answer names exactly this Item and is HEALTHY itself.
pub observe_status-healthy :
    (target : ItemHealth) (s : ItemStatus) (at : ℕ) {u : ItemHealthUpdate}
    → observe_status target s at ≡ ok u
    → u.status ≡ some healthy
    → (s.item_id ≡ some target.plaid_item_id) × (s.classification.state ≡ some healthy)
unfolding update_of next_state validated_result
observe_status-healthy target s at h e =
    let e' = subst (λ u. u.status ≡ some healthy) (observe_status-eq target s at h) e in
    ground (arith, named_exactly target s.item_id)

-- An answer about another Item, or with no evidence about this one, never moves an Item that asks
-- its owner to act, and carries no error.
pub observe_status-keeps_action :
    (target : ItemHealth) (s : ItemStatus) (at : ℕ) {u : ItemHealthUpdate}
    → observe_status target s at ≡ ok u
    → owner_actionable target.status ≡ true
    → (names_other target s.item_id || not s.classification.item_state_observed) ≡ true
    → (u.status ≡ none) × (u.error_code ≡ none) × (u.error_detail ≡ none)
unfolding update_of next_state validated_result
observe_status-keeps_action target s at h act e =
    subst (λ u. (u.status ≡ none) × (u.error_code ≡ none) × (u.error_detail ≡ none))
      (sym (observe_status-eq target s at h)) (ground arith)

-- An answer about another Item makes this one DEGRADED, or leaves it alone if it asks its owner to
-- act, and gives no investments clock.
pub observe_status-other :
    (target : ItemHealth) (s : ItemStatus) (at : ℕ) {u : ItemHealthUpdate}
    → observe_status target s at ≡ ok u
    → names_other target s.item_id ≡ true
    → (u.status ≡ (if owner_actionable target.status then none else some degraded))
      × (u.investments_status_observed ≡ false)
      × (u.investments_last_successful_update ≡ none)
unfolding update_of next_state validated_result
observe_status-other target s at h e =
    subst
      (λ u.
        (u.status ≡ (if owner_actionable target.status then none else some degraded))
        × (u.investments_status_observed ≡ false)
        × (u.investments_last_successful_update ≡ none))
      (sym (observe_status-eq target s at h)) (ground arith)
