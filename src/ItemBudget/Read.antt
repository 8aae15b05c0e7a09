-- ===== src/ItemBudget/Read.antt =====
-- networth/item_budget.py: `read_item_budget` and `_adjudicated_slots`.
use networth.Prelude.{
  ℕ, zero, suc, Bool, true, false, not, ◌&&◌, Option, none, some, String, str_eq, List, [], ◌∷◌,
  ◌++◌, ◌==◌, if◌then◌else◌, any,
}
use networth.Prelude.Result.{Result, ok, err, ◌>>=◌, ◌>>◌, raise_if, item_budget}
use networth.Prelude.Sort.{sort}
use networth.Model.Texts.{is_visible, visible_or_absent, text_leb}
use networth.Model.Item.{is_some}
use networth.Store.Tables.{convert, find}
use networth.ItemBudget.{
  lifetime_item_slots, SpentSlot, new_spent_slot, item, adjudicated_observation, ItemBudget,
  new_item_budget, FlowRow, no_later_row, is_exchanged, classify_rows,
}

-- The columns of `item` that the budget reads.
pub record ItemSlotRow : Type 0 where
  pub id : ℕ
  pub plaid_item_id : String
  pub replaces_item_id : Option ℕ

-- A row of `link_success_observation`; the count is none where the column is not a natural number.
pub record ObservationRow : Type 0 where
  pub observation_id : String
  pub flow_id : String
  pub resolved_at : Option ℕ
  pub additional_slots : Option ℕ

-- The unresolved and resolved holds are given by their `resolved_at`.
pub record BudgetTables : Type 0 where
  pub holds : List (Option ℕ)
  pub items : List ItemSlotRow
  pub observations : List ObservationRow
  pub evidence : List FlowRow

abbrev pub replaced_row : List ItemSlotRow → Option ℕ → Option (Option ItemSlotRow)
replaced_row items none = none
replaced_row items (some r) = some (find (λ (i : ItemSlotRow). i.id == r) items)

abbrev pub replaced_text : Option (Option ItemSlotRow) → Result (Option String)
replaced_text none = ok none
replaced_text (some none) = err item_budget
replaced_text (some (some i)) =
    if is_visible i.plaid_item_id then ok (some i.plaid_item_id) else err item_budget

-- The slot of one stored Item.
unfoldable pub item_slot : List ItemSlotRow → ItemSlotRow → Result SpentSlot
item_slot items i = do
  raise_if (not (is_visible i.plaid_item_id)) item_budget
  replaced ← replaced_text (replaced_row items i.replaces_item_id)
  new_spent_slot (record {
    evidence = item;
    plaid_item_id = some i.plaid_item_id;
    flow_id = none;
    state = none;
    replaces_plaid_item_id = replaced;
    result_id = none;
    observation_id = none;
  })

-- `for _ in range(additional)`
abbrev pub repeat_slots : ℕ → Result SpentSlot → Result (List SpentSlot)
repeat_slots zero s = ok []
repeat_slots (suc n) s =
    let rest = repeat_slots n s in s >>= λ slot. rest >>= λ slots. ok (slot ∷ slots)

abbrev pub or_invalid : Option ℕ → Result ℕ
or_invalid none = err item_budget
or_invalid (some n) = ok n

unfoldable pub observation_slots : ObservationRow → Result (List SpentSlot)
observation_slots o = do
  raise_if (not (is_visible o.observation_id)) item_budget
  raise_if (not (is_some o.resolved_at)) item_budget
  additional ← or_invalid o.additional_slots
  repeat_slots additional (do
    raise_if (not (is_visible o.flow_id)) item_budget
    new_spent_slot (record {
      evidence = adjudicated_observation;
      plaid_item_id = none;
      flow_id = some o.flow_id;
      state = none;
      replaces_plaid_item_id = none;
      result_id = none;
      observation_id = some o.observation_id;
    }))

abbrev pub by_observation : ObservationRow → ObservationRow → Bool
by_observation a b = text_leb a.observation_id b.observation_id

abbrev pub concat {ℓ} : {A : Type ℓ} → List (List A) → List A
concat [] = []
concat (xs ∷ xss) = xs ++ concat xss

-- `_adjudicated_slots`
unfoldable pub adjudicated_slots : List ObservationRow → Result (List SpentSlot)
unfolding observation_slots
adjudicated_slots rows = do
  slots ← convert observation_slots (sort by_observation rows)
  ok (concat slots)

-- `flow.item_id in known_item_ids`
abbrev pub is_known : List ItemSlotRow → String → Bool
is_known items id = any (λ (i : ItemSlotRow). str_eq i.plaid_item_id id) items

abbrev pub is_present {ℓ} : {A : Type ℓ} → List A → Bool
is_present [] = false
is_present (_ ∷ _) = true

-- A group of rows of one slot: its Item id, if any, its first row and the others.
abbrev pub Group : Type 0
Group = Option String × FlowRow × List FlowRow

abbrev pub is_group_of : String → Option String → Bool
is_group_of id none = false
is_group_of id (some key) = str_eq key id

-- `group.append(flow)`, or a new group at the end
abbrev pub add_row : String → FlowRow → List Group → List Group
add_row id flow [] = (some id, flow, []) ∷ []
add_row id flow ((key, first, rows) ∷ groups) =
    let later = add_row id flow groups in
    if is_group_of id key
    then (key, first, rows ++ flow ∷ []) ∷ groups
    else (key, first, rows) ∷ later

-- `_text` and `_optional_text` of the four columns
abbrev pub is_readable_row : FlowRow → Bool
is_readable_row r =
    is_visible r.flow_id
    && is_visible r.state
    && visible_or_absent r.item_id
    && visible_or_absent r.result_id

abbrev pub place_row : List ItemSlotRow → FlowRow → Option String → List Group → Result (List Group)
place_row items flow none groups =
    if is_exchanged flow && is_present items
    then err item_budget
    else ok (groups ++ (none, flow, []) ∷ [])
place_row items flow (some id) groups =
    if is_known items id then ok groups else ok (add_row id flow groups)

-- The loop over the evidence.
unfoldable pub group_rows : List ItemSlotRow → List FlowRow → List Group → Result (List Group)
group_rows items [] groups = ok groups
group_rows items (flow ∷ flows) groups = do
  raise_if (not (is_readable_row flow)) item_budget
  placed ← place_row items flow flow.item_id groups
  group_rows items flows placed

unfoldable pub group_slot : Group → Result SpentSlot
unfolding classify_rows
group_slot (_, first, rows) =
    let (evidence, deciding) = classify_rows first rows in
    new_spent_slot (record {
      evidence = evidence;
      plaid_item_id = deciding.item_id;
      flow_id = some deciding.flow_id;
      state = some deciding.state;
      replaces_plaid_item_id = none;
      result_id = deciding.result_id;
      observation_id = none;
    })

abbrev pub is_unresolved : Option ℕ → Bool
is_unresolved r = not (is_some r)

-- `ORDER BY flow_id, result_id`
abbrev pub sorted_evidence : List FlowRow → List FlowRow
sorted_evidence rows = sort no_later_row rows

-- `read_item_budget`
unfoldable pub read_item_budget : BudgetTables → Result ItemBudget
unfolding item_slot adjudicated_slots group_rows group_slot
read_item_budget t = do
  raise_if (any is_unresolved t.holds) item_budget
  items ← convert (item_slot t.items) t.items
  adjudicated ← adjudicated_slots t.observations
  groups ← group_rows t.items (sorted_evidence t.evidence) []
  flows ← convert group_slot groups
  new_item_budget (record { capacity = lifetime_item_slots; spent = items ++ adjudicated ++ flows })
