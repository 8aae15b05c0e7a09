-- ===== src/Examples/Polls.antt =====
-- A sweep of two Items: one answers that it is healthy, the other's token store raises.
use networth.Prelude.{
  ℕ, ◌≡◌, ◌≢◌, refl, true, false, none, some, String, str_eq, List, [], ◌∷◌, All, if◌then◌else◌,
  arith, ◌==◌,
}
use Prim.Native.String.{◌++◌}
use networth.Prelude.Result.{Result, ok, err, raised_outside}
use networth.Model.Texts.{is_nonempty, is_space}
use networth.Model.Item.{
  healthy, degraded, ItemHealth, ItemHealthUpdate, new_item_health, new_item_health_update,
  owner_actionable,
}
use networth.Plaid.{ItemStatus, healthy_classification, classify_error}
use networth.Plaid.Details.{nonempty-append, EndsWell-append, EndsWell-nonempty}
use networth.Plaid.States.{IsCautious, classify_error-IsCautious}
use networth.Store.Tables.{find}
use networth.Store.Items.{record_poll}
use networth.Store.Polls.{IsValid, polled, record_poll_total, polled-precedence}
use networth.Poller.{observe_status, validated_result}
use networth.Poller.Observe.{
  IsReadable, observe_status-healthy, observe_status-keeps_action, observe_status-other,
}
use networth.Examples.Data.{thursday, noon, brokerage_item, savings_item}

abbrev rows : List ItemHealth
rows = brokerage_item ∷ record savings_item { plaid_item_id = "item-2"; secret_ref = "ref-2" } ∷ []

abbrev tokens : String → Result String
tokens s = if str_eq s "ref-1" then ok "token" else err (raised_outside "TokenUnavailableError")

abbrev healthy_answer : ItemStatus
healthy_answer = record {
  item_id = some "item-1";
  classification = healthy_classification;
  investments_status_observed = true;
  investments_last_successful_update = some thursday;
}

abbrev client : String → Result ItemStatus
client s = ok healthy_answer

abbrev quoted : String → String
quoted s = "'" ++ (s ++ "'")

abbrev healthy_update : ItemHealthUpdate
healthy_update = record {
  polled_at = noon;
  status = some healthy;
  error_code = none;
  error_detail = none;
  investments_status_observed = true;
  investments_last_successful_update = some thursday;
}

rows-IsValid : All IsValid rows
unfolding new_item_health is_nonempty
rows-IsValid = (refl, (refl, tt))

readable : IsReadable healthy_answer
unfolding is_nonempty
readable = record { code_readable = refl; detail_readable = refl; clock_observed = λ h. cc }

observed : observe_status brokerage_item healthy_answer noon ≡ ok healthy_update
unfolding observe_status new_item_health_update validated_result
observed = refl

quoted_nonempty : (s : String) → is_nonempty (quoted s) ≡ true
unfolding is_nonempty is_space
quoted_nonempty s =
    nonempty-append "'" (s ++ "'") refl (EndsWell-append s "'" (EndsWell-nonempty "'" refl))

classify_error-IsCautious_example :
    IsCautious (classify_error quoted (some "NEW_CODE") (some "ITEM_ERROR"))
classify_error-IsCautious_example =
    classify_error-IsCautious quoted (some "NEW_CODE") (some "ITEM_ERROR")

observe_status-healthy_example :
    (healthy_answer.item_id ≡ some brokerage_item.plaid_item_id)
    × (healthy_answer.classification.state ≡ some healthy)
observe_status-healthy_example =
    observe_status-healthy brokerage_item healthy_answer noon observed refl

-- An answer about some other Item, for an Item that needs its owner.
abbrev other_answer : ItemStatus
other_answer = record healthy_answer { item_id = some "item-9" }

abbrev no_transition : ItemHealthUpdate
no_transition = record {
  polled_at = noon;
  status = none;
  error_code = none;
  error_detail = none;
  investments_status_observed = false;
  investments_last_successful_update = none;
}

not_this_item : observe_status savings_item other_answer noon ≡ ok no_transition
unfolding observe_status new_item_health_update validated_result owner_actionable
not_this_item = refl

observe_status-keeps_action_example :
    (no_transition.status ≡ none)
    × (no_transition.error_code ≡ none)
    × (no_transition.error_detail ≡ none)
unfolding owner_actionable
observe_status-keeps_action_example =
    observe_status-keeps_action savings_item other_answer noon not_this_item refl refl

observe_status-other_example :
    (no_transition.status ≡ (if owner_actionable savings_item.status then none else some degraded))
    × (no_transition.investments_status_observed ≡ false)
    × (no_transition.investments_last_successful_update ≡ none)
observe_status-other_example =
    observe_status-other savings_item other_answer noon not_this_item refl

update_checks : new_item_health_update healthy_update ≡ ok healthy_update
unfolding new_item_health_update
update_checks = refl

record_poll_total_example :
    (rows' : List ItemHealth) × (record_poll rows 1 healthy_update
      ≡ ok (polled healthy_update brokerage_item, rows'))
    × (find (λ r. r.id == 1) rows' ≡ some (polled healthy_update brokerage_item))
    × All IsValid rows'
    × ((other : ℕ) → other ≢ 1 → find (λ r. r.id == other) rows' ≡ find (λ r. r.id == other) rows)
record_poll_total_example =
    record_poll_total rows 1 healthy_update brokerage_item rows-IsValid update_checks refl

polled-precedence_example :
    polled (record healthy_update { polled_at = thursday }) (polled healthy_update brokerage_item)
    ≡ polled healthy_update brokerage_item
polled-precedence_example =
    polled-precedence healthy_update (record healthy_update { polled_at = thursday }) brokerage_item
      refl (omega arith)
