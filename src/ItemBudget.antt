-- ===== src/ItemBudget.antt =====
-- networth/item_budget.py: how many of the ten lifetime Item slots are left. The view
-- `link_success_evidence` and the tables are lists of their rows.
pub mod Read
pub mod Slots
pub mod Uniform
pub mod Counts
use networth.Prelude.{
  ℕ, suc, ◌+◌, Bool, true, false, not, ◌&&◌, ◌||◌, Option, none, some, String, str_eq, List, [],
  ◌∷◌, ◌++◌, ◌==◌, ltb, if◌then◌else◌, keep, any, length,
}
use networth.Prelude.Int.{ℤ, sub_ℕ}
use networth.Prelude.Result.{Result, ok, err, ◌>>=◌, ◌>>◌, raise_if, item_budget, invalid_slot}
use networth.Prelude.Sort.{sort}
use networth.Model.Texts.{is_visible, visible_or_absent, text_leb}
use networth.Model.Item.{is_some}
use networth.Model.Figure.{same}
use networth.Store.Tables.{convert, find}

abbrev pub lifetime_item_slots : ℕ
lifetime_item_slots = 10

abbrev pub stranded_states : List String
stranded_states = "TOKEN_EXPIRED" ∷ "EXCHANGE_UNCERTAIN" ∷ []

pub data SlotEvidence : Type 0 where
  item stranded_flow in_flight_flow orphaned_flow adjudicated_observation : SlotEvidence

abbrev pub is_item : SlotEvidence → Bool
is_item item = true
is_item _ = false

pub record SpentSlot : Type 0 where
  pub evidence : SlotEvidence
  pub plaid_item_id : Option String
  pub flow_id : Option String
  pub state : Option String
  pub replaces_plaid_item_id : Option String
  pub result_id : Option String
  pub observation_id : Option String

-- `SpentSlot.__post_init__`
unfoldable pub new_spent_slot : SpentSlot → Result SpentSlot
new_spent_slot s = do
  raise_if (not (visible_or_absent s.plaid_item_id)) invalid_slot
  raise_if (not (visible_or_absent s.flow_id)) invalid_slot
  raise_if (not (visible_or_absent s.state)) invalid_slot
  raise_if (not (visible_or_absent s.replaces_plaid_item_id)) invalid_slot
  raise_if (not (visible_or_absent s.result_id)) invalid_slot
  raise_if (not (visible_or_absent s.observation_id)) invalid_slot
  raise_if (same (is_item s.evidence) (is_some s.flow_id)) invalid_slot
  raise_if
      (if is_item s.evidence
        then not (is_some s.plaid_item_id)
        else is_some s.replaces_plaid_item_id)
      invalid_slot
  ok s

pub record ItemBudget : Type 0 where
  pub capacity : ℕ
  pub spent : List SpentSlot

-- `ItemBudget.__post_init__`
unfoldable pub new_item_budget : ItemBudget → Result ItemBudget
new_item_budget b = do raise_if (b.capacity == 0) invalid_slot; ok b

unfoldable pub spent_count : ItemBudget → ℕ
spent_count b = length b.spent

-- Not clamped at zero.
unfoldable pub remaining : ItemBudget → ℤ
unfolding spent_count
remaining b = sub_ℕ b.capacity (spent_count b)

abbrev pub is_stranded : SlotEvidence → Bool
is_stranded stranded_flow = true
is_stranded adjudicated_observation = true
is_stranded _ = false

abbrev pub is_in_flight : SlotEvidence → Bool
is_in_flight in_flight_flow = true
is_in_flight _ = false

abbrev pub is_orphaned : SlotEvidence → Bool
is_orphaned orphaned_flow = true
is_orphaned _ = false

abbrev pub with_evidence : (SlotEvidence → Bool) → ItemBudget → List SpentSlot
with_evidence p b = keep (λ (s : SpentSlot). p s.evidence) b.spent

unfoldable pub usable : ItemBudget → List SpentSlot
usable b = with_evidence is_item b

unfoldable pub stranded : ItemBudget → List SpentSlot
stranded b = with_evidence is_stranded b

unfoldable pub in_flight : ItemBudget → List SpentSlot
in_flight b = with_evidence is_in_flight b

unfoldable pub orphaned : ItemBudget → List SpentSlot
orphaned b = with_evidence is_orphaned b

unfoldable pub replacements : ItemBudget → List SpentSlot
replacements b = keep (λ (s : SpentSlot). is_some s.replaces_plaid_item_id) b.spent

-- `_FlowRow`
pub record FlowRow : Type 0 where
  pub flow_id : String
  pub state : String
  pub item_id : Option String
  pub result_id : Option String

abbrev pub or_empty : Option String → String
or_empty none = ""
or_empty (some s) = s

-- `identity`, compared
abbrev pub no_later_row : FlowRow → FlowRow → Bool
no_later_row a b =
    if str_eq a.flow_id b.flow_id
    then text_leb (or_empty a.result_id) (or_empty b.result_id)
    else text_leb a.flow_id b.flow_id

-- `min(rows, key=identity)`
abbrev pub least_row : FlowRow → List FlowRow → FlowRow
least_row r [] = r
least_row r (s ∷ rows) = let m = least_row s rows in if no_later_row r m then r else m

abbrev pub is_exchanged : FlowRow → Bool
is_exchanged r = str_eq r.state "EXCHANGED"

abbrev pub is_stranded_row : FlowRow → Bool
is_stranded_row r = any (str_eq r.state) stranded_states

abbrev pub classify_by :
    List FlowRow → List FlowRow → FlowRow → List FlowRow → SlotEvidence × FlowRow
classify_by (e ∷ es) _ r rows = (orphaned_flow, least_row e es)
classify_by [] (s ∷ ss) r rows = (stranded_flow, least_row s ss)
classify_by [] [] r rows = (in_flight_flow, least_row r rows)

-- `_classify` of a group, which is never empty
unfoldable pub classify_rows : FlowRow → List FlowRow → SlotEvidence × FlowRow
classify_rows r rows =
    classify_by (keep is_exchanged (r ∷ rows)) (keep is_stranded_row (r ∷ rows)) r rows
