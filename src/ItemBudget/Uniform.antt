-- ===== src/ItemBudget/Uniform.antt =====
-- networth/item_budget.py: a group's rows all name the Item that the group names, so its slot does.
use networth.Prelude.{
  not, ◌&&◌, ◌≡◌, refl, sym, ap, subst, ◌∙◌, inl, inr, Bool-cases, Option, none, some, String,
  str_eq, eq_iff, All-append_one, List, [], ◌∷◌, All, All-keep, arith,
}
use networth.Prelude.Result.{ok, err, ok-injective, >>=-eq-ok, raise_if-eq-ok, item_budget}
use networth.ItemBudget.{
  SpentSlot, new_spent_slot, FlowRow, no_later_row, least_row, is_exchanged, is_stranded_row,
  classify_by, classify_rows,
}
use networth.ItemBudget.Read.{
  ItemSlotRow, Group, add_row, place_row, group_rows, group_slot, is_known, is_readable_row,
  is_present,
}

-- All rows of a group name what the group names.
abbrev pub IsUniform : Group → Type 0
IsUniform (key, first, rows) = All (λ (r : FlowRow). r.item_id ≡ key) (first ∷ rows)

least_row-All :
    (P : FlowRow → Type 0) (r : FlowRow) (rows : List FlowRow)
    → All P (r ∷ rows)
    → P (least_row r rows)
least_row-All P r [] h = h.0
least_row-All P r (s ∷ rows) (h, hs) = elim (Bool-cases (no_later_row r (least_row s rows))) [
  | inl e ↦ rw e h
  | inr e ↦ rw e (least_row-All P s rows hs)
]

classify_by-All :
    (P : FlowRow → Type 0) (es ss : List FlowRow) (r : FlowRow) (rows : List FlowRow)
    → All P es
    → All P ss
    → All P (r ∷ rows)
    → P (classify_by es ss r rows).1
classify_by-All P (e ∷ es) ss r rows h _ _ = least_row-All P e es h
classify_by-All P [] (s ∷ ss) r rows _ h _ = least_row-All P s ss h
classify_by-All P [] [] r rows _ _ h = least_row-All P r rows h

-- The row that decides a group's slot is one of the group.
classify_rows-All :
    (P : FlowRow → Type 0) (r : FlowRow) (rows : List FlowRow)
    → All P (r ∷ rows)
    → P (classify_rows r rows).1
unfolding classify_rows
classify_rows-All P r rows h =
    classify_by-All P _ _ r rows (All-keep is_exchanged P (r ∷ rows) h)
      (All-keep is_stranded_row P (r ∷ rows) h) h

pub new_spent_slot-eq : (x s : SpentSlot) → new_spent_slot x ≡ ok s → x ≡ s
unfolding new_spent_slot
new_spent_slot-eq x s h = ground arith

add_row-IsUniform :
    (id : String) (flow : FlowRow) (groups : List Group)
    → flow.item_id ≡ some id
    → All IsUniform groups
    → All IsUniform (add_row id flow groups)
add_row-IsUniform id flow [] named h = ((named, tt), tt)
add_row-IsUniform id flow ((none, first, rows) ∷ groups) named (h, hs) =
    (h, add_row-IsUniform id flow groups named hs)
add_row-IsUniform id flow ((some k, first, rows) ∷ groups) named (h, hs) =
    elim (Bool-cases (str_eq k id)) [
      | inl e ↦
          let same : flow.item_id ≡ some k = named ∙ ap some (sym ((eq_iff k id).0 e)) in
          rw e ((h.0, All-append_one _ rows flow h.1 same), hs)
      | inr e ↦ rw e (h, add_row-IsUniform id flow groups named hs)
    ]

module _ (items : List ItemSlotRow) where
  place_row-IsUniform :
      (flow : FlowRow) (id : Option String) (groups placed : List Group)
      → flow.item_id ≡ id
      → place_row items flow id groups ≡ ok placed
      → All IsUniform groups
      → All IsUniform placed
  place_row-IsUniform flow none groups placed named h uniform =
      elim (Bool-cases (is_exchanged flow && is_present items)) [
        | inl e ↦ let bad : err item_budget ≡ ok placed = (rw e at h) in cc
        | inr e ↦
            subst (All IsUniform) (ok-injective (rw e at h))
              (All-append_one IsUniform groups (none, flow, []) uniform (named, tt))
      ]
  place_row-IsUniform flow (some id) groups placed named h uniform =
      elim (Bool-cases (is_known items id)) [
        | inl e ↦ subst (All IsUniform) (ok-injective (rw e at h)) uniform
        | inr e ↦
            subst (All IsUniform) (ok-injective (rw e at h))
              (add_row-IsUniform id flow groups named uniform)
      ]

  pub group_rows-IsUniform :
      (flows : List FlowRow) (groups gs : List Group)
      → group_rows items flows groups ≡ ok gs
      → All IsUniform groups
      → All IsUniform gs
  unfolding group_rows
  group_rows-IsUniform [] groups gs h uniform = subst (All IsUniform) (ok-injective h) uniform
  group_rows-IsUniform (flow ∷ flows) groups gs h uniform =
      let h1 = raise_if-eq-ok (not (is_readable_row flow)) item_budget _ h in
      let (placed, made, rest) = >>=-eq-ok (place_row items flow flow.item_id groups) _ h1 in
      group_rows-IsUniform flows placed gs rest
        (place_row-IsUniform flow flow.item_id groups placed refl made uniform)

pub group_slot-named :
    (g : Group) (s : SpentSlot) → IsUniform g → group_slot g ≡ ok s → s.plaid_item_id ≡ g.0
unfolding group_slot
group_slot-named (key, first, rows) s uniform h =
    ap (λ (x : SpentSlot). x.plaid_item_id) (sym (new_spent_slot-eq _ s h))
    ∙ classify_rows-All (λ (r : FlowRow). r.item_id ≡ key) first rows uniform
