-- ===== src/Examples/Budget.antt =====
-- A stored Item with its own flow, two flows of one lost Item, a flow without a name, and an
-- adjudicated observation: four slots are spent, six are left.
use networth.Prelude.{◌+◌, ◌≡◌, refl, none, some, String, List, [], ◌∷◌, count}
use networth.Prelude.Int.{pos}
use networth.Prelude.Result.{ok, err, item_budget}
use networth.ItemBudget.{
  SpentSlot, item, stranded_flow, adjudicated_observation, ItemBudget, FlowRow, remaining,
}
use networth.ItemBudget.Read.{BudgetTables, read_item_budget}
use networth.ItemBudget.Slots.{is_absent}
use networth.ItemBudget.Counts.{
  slot_names, is_nameless, additional, named_total, read_item_budget-counts,
}

abbrev flow : String → String → FlowRow
flow id state = record { flow_id = id; state = state; item_id = none; result_id = none }

abbrev tables : BudgetTables
tables = record {
  holds = some 5 ∷ [];
  items = record { id = 1; plaid_item_id = "item-1"; replaces_item_id = none } ∷ [];
  observations =
      record {
        observation_id = "seen-1";
        flow_id = "flow-0";
        resolved_at = some 7;
        additional_slots = some 1;
      }
      ∷ [];
  evidence =
      record (flow "flow-1" "EXCHANGED") { item_id = some "item-1" }
      ∷ record (flow "flow-3" "SUCCESS_PENDING_EXCHANGE") { item_id = some "item-2" }
      ∷ record (flow "flow-2" "TOKEN_EXPIRED") { item_id = some "item-2" }
      ∷ flow "flow-4" "EXCHANGE_UNCERTAIN"
      ∷ [];
}

abbrev no_slot : SpentSlot
no_slot = record {
  evidence = stranded_flow;
  plaid_item_id = none;
  flow_id = none;
  state = none;
  replaces_plaid_item_id = none;
  result_id = none;
  observation_id = none;
}

abbrev budget : ItemBudget
budget = record {
  capacity = 10;
  spent =
      record no_slot { evidence = item; plaid_item_id = some "item-1" }
      ∷ record no_slot {
        evidence = adjudicated_observation;
        flow_id = some "flow-0";
        observation_id = some "seen-1";
      }
      ∷ record no_slot {
        plaid_item_id = some "item-2";
        flow_id = some "flow-2";
        state = some "TOKEN_EXPIRED";
      }
      ∷ record no_slot { flow_id = some "flow-4"; state = some "EXCHANGE_UNCERTAIN" }
      ∷ [];
}

budget_read : read_item_budget tables ≡ ok budget
unfolding read_item_budget networth.Store.Tables.convert networth.Model.Texts.is_visible
    networth.ItemBudget.new_spent_slot networth.Prelude.Sort.sort
    networth.ItemBudget.new_item_budget
budget_read = refl

six_left : remaining budget ≡ pos 6
unfolding remaining
six_left = refl

-- A flow that is exchanged and names no Item cannot be told apart from a stored one.
nameless_exchange :
    read_item_budget (record tables { evidence = flow "flow-1" "EXCHANGED" ∷ [] }) ≡ err item_budget
unfolding read_item_budget networth.Store.Tables.convert networth.Model.Texts.is_visible
    networth.ItemBudget.new_spent_slot networth.Prelude.Sort.sort
nameless_exchange = refl

read_item_budget-counts_example :
    ((p : String) → count (slot_names p) budget.spent ≡ named_total tables p)
    × (count is_nameless budget.spent
        ≡ additional tables.observations
          + count (λ (r : FlowRow). is_absent r.item_id) tables.evidence)
    × (budget.capacity ≡ 10)
read_item_budget-counts_example = read_item_budget-counts tables budget budget_read
