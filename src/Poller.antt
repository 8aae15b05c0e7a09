-- ===== src/Poller.antt =====
-- networth/item_health.py: `ItemHealthPoller`, which asks Plaid for each due Item's state and records
-- what it observed. The token store, the client and `repr` are parameters.
pub mod Observe
pub mod Batch
use networth.Prelude.{
  ℕ, ◌-◌, Bool, true, false, not, ◌&&◌, ◌||◌, Option, none, some, String, str_eq, List, [], ◌∷◌,
  if◌then◌else◌, length,
}
use networth.Prelude.Result.{Result, ok, err, Error, ◌>>=◌, ◌>>◌, item_not_found}
use networth.Calendar.Dates.{hour}
use networth.Model.Item.{
  ItemState, ItemHealth, ItemHealthUpdate, new_item_health_update, is_healthy, carries_no_error,
  is_some, owner_actionable,
}
use networth.Plaid.{Classification, ItemStatus, malformed_response}
use networth.Store.Items.{get_item, all_items, due_at_or_before, record_poll, or_missing}

abbrev pub poll_interval : ℕ
poll_interval = hour

-- `PollPlan`
pub record PollPlan : Type 0 where
  pub attempted_count : ℕ
  pub observations : List (ℕ × ItemHealthUpdate)
  pub failure_types : List Error

-- `PollBatchResult`
pub record PollBatchResult : Type 0 where
  pub attempted_count : ℕ
  pub recorded : List ItemHealth
  pub failure_types : List Error

-- `status.item_id is not None and status.item_id != target.plaid_item_id`
abbrev pub names_other : ItemHealth → Option String → Bool
names_other target none = false
names_other target (some id) = not (str_eq id target.plaid_item_id)

abbrev pub is_healthy_state : Option ItemState → Bool
is_healthy_state none = false
is_healthy_state (some s) = is_healthy s

-- `_validated_result`
unfoldable pub validated_result : ItemHealth → ItemStatus → ItemStatus
validated_result target status =
    if names_other target status.item_id
      || (is_healthy_state status.classification.state && not (is_some status.item_id))
    then record {
      item_id = status.item_id;
      classification = malformed_response "the response Item id did not match the polled Item";
      investments_status_observed = false;
      investments_last_successful_update = none;
    }
    else status

-- The state that a validated answer moves the Item to; none leaves it where it is.
unfoldable pub next_state : ItemHealth → Classification → Option ItemState
next_state target c =
    if not c.item_state_observed && owner_actionable target.status then none else c.state

-- The update of a validated answer, before the checks of its constructor.
unfoldable pub update_of : ItemHealth → ItemStatus → ℕ → ItemHealthUpdate
unfolding next_state
update_of target validated polled_at =
    let next = next_state target validated.classification in
    record {
      polled_at = polled_at;
      status = next;
      error_code = if carries_no_error next then none else validated.classification.error_code;
      error_detail = if carries_no_error next then none else some validated.classification.detail;
      investments_status_observed = validated.investments_status_observed;
      investments_last_successful_update = validated.investments_last_successful_update;
    }

-- `_observe` from the client's answer on.
unfoldable pub observe_status : ItemHealth → ItemStatus → ℕ → Result ItemHealthUpdate
unfolding update_of
observe_status target status polled_at =
    new_item_health_update (update_of target (validated_result target status) polled_at)

-- The recorded items of a plan, and the rows after all of them.
abbrev pub recorded_next :
    ItemHealth → List ItemHealth × List ItemHealth → List ItemHealth × List ItemHealth
recorded_next item (recorded, rows) = (item ∷ recorded, rows)

unfoldable pub record_all :
    List ItemHealth → List (ℕ × ItemHealthUpdate) → Result (List ItemHealth × List ItemHealth)
record_all rows [] = ok ([], rows)
record_all rows ((item_id, u) ∷ rest) = do
  (item, rows') ← record_poll rows item_id u
  more ← record_all rows' rest
  ok (recorded_next item more)

-- `persist`
unfoldable pub persist : List ItemHealth → PollPlan → Result (PollBatchResult × List ItemHealth)
unfolding record_all
persist rows plan = do
  (recorded, rows') ← record_all rows plan.observations
  ok (
    record {
      attempted_count = plan.attempted_count;
      recorded = recorded;
      failure_types = plan.failure_types;
    },
    rows',
  )

module _ (tokens : String → Result String) (client : String → Result ItemStatus) where
  -- `_observe`
  unfoldable pub observe : ItemHealth → ℕ → Result ItemHealthUpdate
  unfolding observe_status
  observe target polled_at = do
    secret ← tokens target.secret_ref
    status ← client secret
    observe_status target status polled_at

  -- One round of the loop of `_collect`, in front of what the rest collects.
  abbrev pub collect_next :
      ItemHealth
      → Result ItemHealthUpdate
      → List (ℕ × ItemHealthUpdate) × List Error
      → List (ℕ × ItemHealthUpdate) × List Error
  collect_next target (ok u) (observations, failures) = ((target.id, u) ∷ observations, failures)
  collect_next target (err e) (observations, failures) = (observations, e ∷ failures)

  unfoldable pub collect_each : List ItemHealth → ℕ → List (ℕ × ItemHealthUpdate) × List Error
  unfolding observe
  collect_each [] polled_at = ([], [])
  collect_each (target ∷ rest) polled_at =
      collect_next target (observe target polled_at) (collect_each rest polled_at)

  -- `_collect`
  unfoldable pub collect : List ItemHealth → ℕ → PollPlan
  unfolding collect_each
  collect targets polled_at =
      let (observations, failures) = collect_each targets polled_at in
      record {
        attempted_count = length targets;
        observations = observations;
        failure_types = failures;
      }

  -- `collect_due`
  unfoldable pub collect_due : List ItemHealth → ℕ → Result PollPlan
  unfolding collect
  collect_due rows at = due_at_or_before rows (at - poll_interval) >>= λ due. ok (collect due at)

  -- `collect_all`
  unfoldable pub collect_all : List ItemHealth → ℕ → Result PollPlan
  unfolding collect
  collect_all rows at = all_items rows >>= λ targets. ok (collect targets at)

  -- `poll_due`
  unfoldable pub poll_due : List ItemHealth → ℕ → Result (PollBatchResult × List ItemHealth)
  unfolding collect_due persist
  poll_due rows at = collect_due rows at >>= persist rows

  -- `poll_all`
  unfoldable pub poll_all : List ItemHealth → ℕ → Result (PollBatchResult × List ItemHealth)
  unfolding collect_all persist
  poll_all rows at = collect_all rows at >>= persist rows

  -- `poll_item`
  unfoldable pub poll_item : List ItemHealth → ℕ → ℕ → Result (ItemHealth × List ItemHealth)
  unfolding observe
  poll_item rows item_id at = do
    found ← get_item rows item_id
    target ← or_missing found
    u ← observe target at
    record_poll rows target.id u
