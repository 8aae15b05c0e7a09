-- ===== src/ItemBudget/Slots.antt =====
-- networth/item_budget.py: what the loops of `read_item_budget` leave behind for one Item id.
use networth.Prelude.{
  ℕ, ◌+◌, Bool, true, false, not, ◌&&◌, ◌≡◌, refl, sym, ap, subst, inl, inr, Bool-cases, Option,
  none, some, String, str_eq, eq_iff, List, [], ◌∷◌, ◌==◌, if◌then◌else◌, count, count-append,
  arith,
}
use networth.Prelude.Result.{ok, err, ok-injective, >>=-eq-ok, raise_if-eq-ok, item_budget}
use networth.ItemBudget.{FlowRow, is_exchanged}
use networth.ItemBudget.Read.{
  ItemSlotRow, Group, is_group_of, add_row, place_row, group_rows, is_known, is_readable_row,
  is_present,
}

-- The row names the Item.
abbrev pub row_names : String → FlowRow → Bool
row_names p r = is_group_of p r.item_id

abbrev pub group_names : String → Group → Bool
group_names p g = is_group_of p g.0

abbrev pub is_absent : Option String → Bool
is_absent none = true
is_absent (some _) = false

-- One if the count is not zero.
abbrev pub once : ℕ → ℕ
once n = if n == 0 then 0 else 1

not_both : (k id p : String) → str_eq k id ≡ false → (str_eq id p && str_eq k p) ≡ false
not_both k id p e = elim (Bool-cases (str_eq id p)) [
  | inl h ↦ rw h (subst (λ x. str_eq k x ≡ false) ((eq_iff id p).0 h) e)
  | inr h ↦ rw h refl
]

count-add_row :
    (p id : String) (flow : FlowRow) (groups : List Group)
    → count (group_names p) (add_row id flow groups) ≡ (
        if str_eq id p && (count (group_names p) groups == 0)
        then 1
        else count (group_names p) groups)
count-add_row p id flow [] = ground arith
count-add_row p id flow ((none, first, rows) ∷ groups) =
    ground (arith, count-add_row p id flow groups)
count-add_row p id flow ((some k, first, rows) ∷ groups) = elim (Bool-cases (str_eq k id)) [
  | inl e ↦
      let same : str_eq id p ≡ str_eq k p = ap (λ x. str_eq x p) (sym ((eq_iff k id).0 e)) in
      ground arith
  | inr e ↦
      let apart : (str_eq id p && str_eq k p) ≡ false = not_both k id p e in
      ground (arith, count-add_row p id flow groups)
]

absent-add_row :
    (id : String) (flow : FlowRow) (groups : List Group)
    → count (λ (g : Group). is_absent g.0) (add_row id flow groups)
      ≡ count (λ (g : Group). is_absent g.0) groups
absent-add_row id flow [] = refl
absent-add_row id flow ((key, first, rows) ∷ groups) = ground (arith, absent-add_row id flow groups)

module _ (items : List ItemSlotRow) where
  known_stays :
      (p id : String) → is_known items id ≡ true → (str_eq id p && not (is_known items p)) ≡ false
  known_stays p id e = elim (Bool-cases (str_eq id p)) [
    | inl h ↦ rw (h, subst (λ x. is_known items x ≡ true) ((eq_iff id p).0 h) e) refl
    | inr h ↦ rw h refl
  ]

  unknown_stays :
      (p id : String) → is_known items id ≡ false → (str_eq id p && is_known items p) ≡ false
  unknown_stays p id e = elim (Bool-cases (str_eq id p)) [
    | inl h ↦ rw (h, subst (λ x. is_known items x ≡ false) ((eq_iff id p).0 h) e) refl
    | inr h ↦ rw h refl
  ]

  -- One turn of the loop over the evidence.
  named_turn :
      (p : String) (flow : FlowRow) (id : Option String) (groups placed : List Group)
      → place_row items flow id groups ≡ ok placed
      → count (group_names p) placed ≡ (
          if is_group_of p id && not (is_known items p) && (count (group_names p) groups == 0)
          then 1
          else count (group_names p) groups)
  named_turn p flow none groups placed h =
      elim (Bool-cases (is_exchanged flow && is_present items)) [
        | inl e ↦ let bad : err item_budget ≡ ok placed = (rw e at h) in cc
        | inr e ↦
            let one = count-append (group_names p) groups ((none, flow, []) ∷ []) in
            rw (sym (ok-injective (rw e at h))) (omega (arith, one))
      ]
  named_turn p flow (some id) groups placed h = elim (Bool-cases (is_known items id)) [
    | inl e ↦
        let kept : groups ≡ placed = ok-injective (rw e at h) in
        let known : (str_eq id p && not (is_known items p)) ≡ false = known_stays p id e in
        rw (sym kept) (ground (arith, known))
    | inr e ↦
        let grown : add_row id flow groups ≡ placed = ok-injective (rw e at h) in
        let unknown : (str_eq id p && is_known items p) ≡ false = unknown_stays p id e in
        rw (sym grown) (ground (arith, count-add_row p id flow groups))
  ]

  unnamed_turn :
      (flow : FlowRow) (id : Option String) (groups placed : List Group)
      → place_row items flow id groups ≡ ok placed
      → count (λ (g : Group). is_absent g.0) placed
        ≡ count (λ (g : Group). is_absent g.0) groups + (if is_absent id then 1 else 0)
  unnamed_turn flow none groups placed h =
      elim (Bool-cases (is_exchanged flow && is_present items)) [
        | inl e ↦ let bad : err item_budget ≡ ok placed = (rw e at h) in cc
        | inr e ↦
            rw (sym (ok-injective (rw e at h)))
              (count-append (λ (g : Group). is_absent g.0) groups ((none, flow, []) ∷ []))
      ]
  unnamed_turn flow (some id) groups placed h = elim (Bool-cases (is_known items id)) [
    | inl e ↦ let kept : groups ≡ placed = ok-injective (rw e at h) in rw (sym kept) (omega arith)
    | inr e ↦
        let grown : add_row id flow groups ≡ placed = ok-injective (rw e at h) in
        rw (sym grown) (omega (arith, absent-add_row id flow groups))
  ]

  pub named_rows :
      (p : String) (flows : List FlowRow) (groups gs : List Group)
      → group_rows items flows groups ≡ ok gs
      → count (group_names p) gs ≡ (
          if not (count (row_names p) flows == 0)
            && not (is_known items p)
            && (count (group_names p) groups == 0)
          then 1
          else count (group_names p) groups)
  unfolding group_rows
  named_rows p [] groups gs h = rw (sym (ok-injective h)) refl
  named_rows p (flow ∷ flows) groups gs h =
      let h1 = raise_if-eq-ok (not (is_readable_row flow)) item_budget _ h in
      let (placed, made, rest) = >>=-eq-ok (place_row items flow flow.item_id groups) _ h1 in
      let turn = named_turn p flow flow.item_id groups placed made in
      let later = named_rows p flows placed gs rest in ground arith

  pub unnamed_rows :
      (flows : List FlowRow) (groups gs : List Group)
      → group_rows items flows groups ≡ ok gs
      → count (λ (g : Group). is_absent g.0) gs
        ≡ count (λ (g : Group). is_absent g.0) groups
          + count (λ (r : FlowRow). is_absent r.item_id) flows
  unfolding group_rows
  unnamed_rows [] groups gs h = rw (sym (ok-injective h)) (omega arith)
  unnamed_rows (flow ∷ flows) groups gs h =
      let h1 = raise_if-eq-ok (not (is_readable_row flow)) item_budget _ h in
      let (placed, made, rest) = >>=-eq-ok (place_row items flow flow.item_id groups) _ h1 in
      let turn = unnamed_turn flow flow.item_id groups placed made in
      let later = unnamed_rows flows placed gs rest in ground arith
