-- ===== src/ItemBudget/Counts.antt =====
-- networth/item_budget.py: every spent slot is counted exactly once.
use networth.Prelude.{
  ℕ, zero, suc, ◌+◌, Bool, true, false, not, ◌≡◌, refl, sym, ap, subst, ◌∙◌, inl, inr, Option, none,
  some, Option-cases, String, str_eq, List, [], ◌∷◌, ◌++◌, ◌==◌, if◌then◌else◌, any, count,
  count-append, All, arith,
}
use networth.Prelude.Result.{
  Result, ok, err, ok-injective, >>=-eq-ok, raise_if-eq-ok, item_budget, invalid_slot,
}
use networth.Prelude.Sort.{sort, insert, count-sort}
use networth.Model.Texts.{is_visible}
use networth.Model.Item.{is_some}
use networth.Store.Tables.{convert}
use networth.ItemBudget.{SpentSlot, ItemBudget, new_item_budget, FlowRow, no_later_row}
use networth.ItemBudget.Read.{
  ItemSlotRow, ObservationRow, BudgetTables, Group, is_group_of, item_slot, replaced_row,
  replaced_text, repeat_slots, or_invalid, observation_slots, by_observation, concat,
  adjudicated_slots, group_rows, group_slot, is_known, is_unresolved, sorted_evidence,
  read_item_budget,
}
use networth.ItemBudget.Slots.{row_names, is_absent, once, named_rows, unnamed_rows}
use networth.ItemBudget.Uniform.{
  IsUniform, new_spent_slot-eq, group_slot-named, group_rows-IsUniform,
}

abbrev pub slot_names : String → SpentSlot → Bool
slot_names p s = is_group_of p s.plaid_item_id

abbrev pub is_nameless : SpentSlot → Bool
is_nameless s = is_absent s.plaid_item_id

-- A test of the results that agrees with one of the arguments counts the same.
count-convert :
    {A B : Type 0} (f : A → Result B) (P : A → Type 0) (p : A → Bool) (q : B → Bool)
    → ((a : A) (b : B) → P a → f a ≡ ok b → q b ≡ p a)
    → (xs : List A) (ys : List B) → All P xs
    → convert f xs ≡ ok ys
    → count q ys ≡ count p xs
unfolding convert
count-convert f P p q each [] ys h made = ap (count q) (sym (ok-injective made))
count-convert f P p q each (x ∷ xs) ys (h, hs) made =
    let (y, first, rest) = >>=-eq-ok (f x) _ made in
    let (zs, others, last) = >>=-eq-ok (convert f xs) _ rest in
    let later = count-convert f P p q each xs zs hs others in
    let now = each x y h first in rw (sym (ok-injective last)) (ground arith)

item_slot-named :
    (items : List ItemSlotRow) (i : ItemSlotRow) (s : SpentSlot)
    → item_slot items i ≡ ok s
    → s.plaid_item_id ≡ some i.plaid_item_id
unfolding item_slot
item_slot-named items i s h =
    let h1 = raise_if-eq-ok (not (is_visible i.plaid_item_id)) item_budget _ h in
    let (replaced, _, made) =
      >>=-eq-ok (replaced_text (replaced_row items i.replaces_item_id)) _ h1 in
    ap (λ (x : SpentSlot). x.plaid_item_id) (sym (new_spent_slot-eq _ s made))

-- The additional slots of all adjudications.
abbrev pub or_zero : Option ℕ → ℕ
or_zero none = 0
or_zero (some n) = n

abbrev pub additional : List ObservationRow → ℕ
additional [] = 0
additional (o ∷ os) = or_zero o.additional_slots + additional os

additional-insert :
    (o : ObservationRow) (rows : List ObservationRow)
    → additional (insert by_observation o rows) ≡ additional (o ∷ rows)
additional-insert o [] = refl
additional-insert o (x ∷ rows) = ground (arith, additional-insert o rows)

additional-sort :
    (rows : List ObservationRow) → additional (sort by_observation rows) ≡ additional rows
unfolding sort
additional-sort [] = refl
additional-sort (o ∷ rows) =
    omega (arith, additional-insert o (sort by_observation rows), additional-sort rows)

repeat_slots-count :
    (q : SpentSlot → Bool) (n : ℕ) (r : Result SpentSlot) (slots : List SpentSlot) (b : Bool)
    → ((s : SpentSlot) → r ≡ ok s → q s ≡ b)
    → repeat_slots n r ≡ ok slots
    → count q slots ≡ (if b then n else 0)
repeat_slots-count q zero r slots b each h = rw (sym (ok-injective h)) (ground arith)
repeat_slots-count q (suc n) r slots b each h =
    let (slot, made, h1) = >>=-eq-ok r _ h in
    let (rest, others, last) = >>=-eq-ok (repeat_slots n r) _ h1 in
    let now = each slot made in
    let later = repeat_slots-count q n r rest b each others in
    rw (sym (ok-injective last)) (ground arith)

module _ (q : SpentSlot → Bool) (b : Bool)
    (each : (s : SpentSlot) → s.plaid_item_id ≡ none → q s ≡ b) where
  observation_slots-count :
      (o : ObservationRow) (slots : List SpentSlot)
      → observation_slots o ≡ ok slots
      → count q slots ≡ (if b then or_zero o.additional_slots else 0)
  unfolding observation_slots
  observation_slots-count o slots h =
      let h1 = raise_if-eq-ok (not (is_visible o.observation_id)) item_budget _ h in
      let h2 = raise_if-eq-ok (not (is_some o.resolved_at)) item_budget _ h1 in
      let (n, counted, made) = >>=-eq-ok (or_invalid o.additional_slots) _ h2 in
      elim (Option-cases o.additional_slots) [
        | inl e ↦ let bad : err item_budget ≡ ok n = (rw e at counted) in cc
        | inr (m, e) ↦
            rw (e, ok-injective (rw e at counted))
              (repeat_slots-count q n _ slots b
                (λ s h. each s (
                  ap (λ (x : SpentSlot). x.plaid_item_id)
                    (sym (
                      new_spent_slot-eq _ s
                        (raise_if-eq-ok (not (is_visible o.flow_id)) item_budget _ h)))))
                made)
      ]

  all_slots-count :
      (rows : List ObservationRow) (slots : List (List SpentSlot))
      → convert observation_slots rows ≡ ok slots
      → count q (concat slots) ≡ (if b then additional rows else 0)
  unfolding convert
  all_slots-count [] slots h = rw (sym (ok-injective h)) (ground arith)
  all_slots-count (o ∷ rows) slots h =
      let (some_slots, made, h1) = >>=-eq-ok (observation_slots o) _ h in
      let (rest, others, last) = >>=-eq-ok (convert observation_slots rows) _ h1 in
      let now = observation_slots-count o some_slots made in
      let later = all_slots-count rows rest others in
      rw (sym (ok-injective last)) (ground (arith, count-append q some_slots (concat rest)))

  adjudicated_slots-count :
      (rows : List ObservationRow) (slots : List SpentSlot)
      → adjudicated_slots rows ≡ ok slots
      → count q slots ≡ (if b then additional rows else 0)
  unfolding adjudicated_slots
  adjudicated_slots-count rows slots h =
      let (all, made, last) =
        >>=-eq-ok (convert observation_slots (sort by_observation rows)) _ h in
      rw (sym (ok-injective last), sym (additional-sort rows))
        (all_slots-count (sort by_observation rows) all made)

count-false {ℓ} : {A : Type ℓ} (xs : List A) → count (λ (x : A). false) xs ≡ 0
count-false [] = refl
count-false (x ∷ xs) = count-false xs

count_of_any {ℓ} : {A : Type ℓ} (p : A → Bool) (xs : List A) → any p xs ≡ false → count p xs ≡ 0
count_of_any p [] h = refl
count_of_any p (x ∷ xs) h =
    let here : p x ≡ false = ground arith in
    let later : any p xs ≡ false = ground arith in rw here (count_of_any p xs later)

All-true {ℓ} : {A : Type ℓ} (xs : List A) → All (λ (x : A). Unit {0}) xs
All-true [] = tt
All-true (x ∷ xs) = (tt, All-true xs)

count_items :
    (q : SpentSlot → Bool) (p : ItemSlotRow → Bool) (rows : List ItemSlotRow)
    (slots : List SpentSlot)
    → ((i : ItemSlotRow) (s : SpentSlot) → s.plaid_item_id ≡ some i.plaid_item_id → q s ≡ p i)
    → convert (item_slot rows) rows ≡ ok slots
    → count q slots ≡ count p rows
count_items q p rows slots each h =
    count-convert (item_slot rows) (λ _. Unit {0}) p q
      (λ i s _ made. each i s (item_slot-named rows i s made)) rows slots (All-true rows) h

count_flows :
    (q : SpentSlot → Bool) (p : Option String → Bool) (groups : List Group) (slots : List SpentSlot)
    → ((s : SpentSlot) → q s ≡ p s.plaid_item_id)
    → All IsUniform groups
    → convert group_slot groups ≡ ok slots
    → count q slots ≡ count (λ (g : Group). p g.0) groups
count_flows q p groups slots each uniform h =
    count-convert group_slot IsUniform (λ (g : Group). p g.0) q
      (λ g s u made. each s ∙ ap p (group_slot-named g s u made)) groups slots uniform h

count-three :
    (q : SpentSlot → Bool) (xs ys zs : List SpentSlot)
    → count q (xs ++ ys ++ zs) ≡ count q xs + count q ys + count q zs
count-three q xs ys zs = omega (arith, count-append q (xs ++ ys) zs, count-append q xs ys)

new_item_budget-eq : (x b : ItemBudget) → new_item_budget x ≡ ok b → x ≡ b
unfolding new_item_budget
new_item_budget-eq x b h = ok-injective (raise_if-eq-ok (x.capacity == 0) invalid_slot _ h)

-- The slots of one Item id: one for each stored row, or one if only evidence names it.
abbrev pub named_total : BudgetTables → String → ℕ
named_total t p =
    if is_known t.items p
    then count (λ (i : ItemSlotRow). str_eq i.plaid_item_id p) t.items
    else once (count (row_names p) t.evidence)

-- Every Item that a stored row or a piece of evidence names has its slots counted once: an Item that is
-- stored has one slot for each of its rows, whatever other evidence names it, and an Item that only
-- evidence names has one slot, however many pieces name it. The slots without a name are the
-- adjudicated ones and one for each piece of evidence without a name.
pub read_item_budget-counts :
    (t : BudgetTables) (b : ItemBudget)
    → read_item_budget t ≡ ok b
    → ((p : String) → count (slot_names p) b.spent ≡ named_total t p)
      × (count is_nameless b.spent
          ≡ additional t.observations + count (λ (r : FlowRow). is_absent r.item_id) t.evidence)
      × (b.capacity ≡ 10)
unfolding read_item_budget
read_item_budget-counts t b h =
    let h1 = raise_if-eq-ok (any is_unresolved t.holds) item_budget _ h in
    let (items, a, h2) = >>=-eq-ok (convert (item_slot t.items) t.items) _ h1 in
    let (adjudicated, c, h3) = >>=-eq-ok (adjudicated_slots t.observations) _ h2 in
    let (groups, g, h4) = >>=-eq-ok (group_rows t.items (sorted_evidence t.evidence) []) _ h3 in
    let (flows, f, h5) = >>=-eq-ok (convert group_slot groups) _ h4 in
    let uniform = group_rows-IsUniform t.items (sorted_evidence t.evidence) [] groups g tt in
    let whole = new_item_budget-eq _ b h5 in
    let spent : items ++ adjudicated ++ flows ≡ b.spent = ap (λ (x : ItemBudget). x.spent) whole in
    (
      λ p.
          let named = named_rows t.items p (sorted_evidence t.evidence) [] groups g in
          let same = count-sort no_later_row (row_names p) t.evidence in
          let stored =
            count_items (slot_names p) (λ i. str_eq i.plaid_item_id p) t.items items
              (λ i s e. ap (is_group_of p) e) a in
          let none_here =
            adjudicated_slots-count (slot_names p) false (λ s e. ap (is_group_of p) e)
              t.observations adjudicated c in
          let from_flows =
            count_flows (slot_names p) (is_group_of p) groups flows (λ s. refl) uniform f in
          let unknown = count_of_any (λ (i : ItemSlotRow). str_eq i.plaid_item_id p) t.items in
          subst (λ (xs : List SpentSlot). count (slot_names p) xs ≡ named_total t p) spent
            (ground (arith, count-three (slot_names p) items adjudicated flows)),
      (let unnamed = unnamed_rows t.items (sorted_evidence t.evidence) [] groups g in
          let same = count-sort no_later_row (λ (r : FlowRow). is_absent r.item_id) t.evidence in
          let stored =
            count_items is_nameless (λ i. false) t.items items (λ i s e. ap is_absent e) a in
          let none_stored = count-false t.items in
          let settled =
            adjudicated_slots-count is_nameless true (λ s e. ap is_absent e) t.observations
              adjudicated c in
          let from_flows = count_flows is_nameless is_absent groups flows (λ s. refl) uniform f in
          subst
            (λ (xs : List SpentSlot).
              count is_nameless xs
              ≡ additional t.observations + count (λ (r : FlowRow). is_absent r.item_id) t.evidence)
            spent (omega (arith, count-three is_nameless items adjudicated flows))),
      ap (λ (x : ItemBudget). x.capacity) (sym whole),
    )
