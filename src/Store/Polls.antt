-- ===== src/Store/Polls.antt =====
-- What `ItemRepository.record_poll` leaves in the table.
use networth.Prelude.{
  ℕ, ◌≤◌, ◌<◌, ◌≡◌, ◌≢◌, ◌∙◌, refl, sym, subst, ap, Bool, true, false, Option, none, some, List, [],
  ◌∷◌, leb, ◌==◌, if◌then◌else◌, arith, All, Bool-cases, Option-cases, inl, inr,
}
use networth.Prelude.Result.{ok}
use networth.Model.Item.{ItemHealth, new_item_health, ItemHealthUpdate, new_item_health_update}
use networth.Store.Tables.{find, find-hit, find-miss}
use networth.Store.Items.{
  get_item, item_from_row, no_later, polled_row, is_target, update_rows, is_outdated, record_poll,
}

-- A row that its reader accepts.
abbrev pub IsValid : ItemHealth → Type 0
IsValid r = new_item_health r ≡ ok r

abbrev has_id : ℕ → ItemHealth → Bool
has_id item_id r = r.id == item_id

polled_row-IsValid :
    (u : ItemHealthUpdate) (r : ItemHealth)
    → new_item_health_update u ≡ ok u
    → IsValid r
    → IsValid (polled_row u r)
unfolding new_item_health new_item_health_update polled_row
polled_row-IsValid u r hu hr = ground arith

update_rows-All :
    (item_id : ℕ) (u : ItemHealthUpdate) (rows : List ItemHealth)
    → new_item_health_update u ≡ ok u
    → All IsValid rows
    → All IsValid (update_rows item_id u rows)
update_rows-All item_id u [] hu h = tt
update_rows-All item_id u (r ∷ rs) hu h = elim (Bool-cases (is_target item_id u r)) [
  | inl e ↦ rw e (polled_row-IsValid u r hu h.0, update_rows-All item_id u rs hu h.1)
  | inr e ↦ rw e (h.0, update_rows-All item_id u rs hu h.1)
]

polled_row-id : (u : ItemHealthUpdate) (r : ItemHealth) → (polled_row u r).id ≡ r.id
unfolding polled_row
polled_row-id u r = elim (Option-cases u.status) [ inl e ↦ rw e refl | inr (s, e) ↦ rw e refl ]

some-injective {ℓ} : {A : Type ℓ} {a b : A} → some a ≡ some b → a ≡ b
some-injective h = cc

find-update_rows :
    (item_id : ℕ) (u : ItemHealthUpdate) (rows : List ItemHealth) (r : ItemHealth)
    → find (has_id item_id) rows ≡ some r
    → no_later u.polled_at r.last_polled_at ≡ true
    → find (has_id item_id) (update_rows item_id u rows) ≡ some (polled_row u r)
find-update_rows item_id u [] r h later = cc
find-update_rows item_id u (x ∷ xs) r h later = elim (Bool-cases (x.id == item_id)) [
  | inl e ↦
      let same = some-injective (sym (find-hit (has_id item_id) x xs e) ∙ h) in
      let hit : is_target item_id u x ≡ true =
        rw (e, subst (λ y. no_later u.polled_at y.last_polled_at ≡ true) (sym same) later) refl in
      rw hit (
        find-hit (has_id item_id) (polled_row u x) (update_rows item_id u xs)
          (ap (λ n. n == item_id) (polled_row-id u x) ∙ e)
        ∙ ap (λ y. some (polled_row u y)) same)
  | inr e ↦
      let miss : is_target item_id u x ≡ false = rw e refl in
      rw miss (
        find-miss (has_id item_id) x (update_rows item_id u xs) e
        ∙ find-update_rows item_id u xs r (sym (find-miss (has_id item_id) x xs e) ∙ h) later)
]

target_id :
    (item_id : ℕ) (u : ItemHealthUpdate) (x : ItemHealth)
    → is_target item_id u x ≡ true
    → x.id ≡ item_id
target_id item_id u x h = ground arith

find-update_other :
    (item_id other : ℕ) (u : ItemHealthUpdate) (rows : List ItemHealth)
    → other ≢ item_id
    → find (has_id other) (update_rows item_id u rows) ≡ find (has_id other) rows
find-update_other item_id other u [] differ = refl
find-update_other item_id other u (x ∷ xs) differ =
    let rest = find-update_other item_id other u xs differ in
    elim (Bool-cases (is_target item_id u x)) [
      | inl e ↦
          let miss : (x.id == other) ≡ false = ground (arith, target_id item_id u x e) in
          rw e (
            find-miss (has_id other) (polled_row u x) (update_rows item_id u xs)
              (ap (λ n. n == other) (polled_row-id u x) ∙ miss)
            ∙ rest
            ∙ sym (find-miss (has_id other) x xs miss))
      | inr e ↦ rw e (elim (Bool-cases (x.id == other)) [
        | inl q ↦ find-hit (has_id other) x _ q ∙ sym (find-hit (has_id other) x xs q)
        | inr q ↦ find-miss (has_id other) x _ q ∙ rest ∙ sym (find-miss (has_id other) x xs q)
      ])
    ]

find-All :
    (p : ItemHealth → Bool) (rows : List ItemHealth) (r : ItemHealth)
    → All IsValid rows
    → find p rows ≡ some r
    → IsValid r
find-All p [] r h e = cc
find-All p (x ∷ xs) r h e = elim (Bool-cases (p x)) [
  | inl q ↦ subst IsValid (some-injective (sym (find-hit p x xs q) ∙ e)) h.0
  | inr q ↦ find-All p xs r h.1 (sym (find-miss p x xs q) ∙ e)
]

get_item-eq :
    (rows : List ItemHealth) (item_id : ℕ) (r : ItemHealth)
    → IsValid r
    → find (has_id item_id) rows ≡ some r
    → get_item rows item_id ≡ ok (some r)
unfolding get_item item_from_row
get_item-eq rows item_id r valid e = rw (e, valid) refl

-- What a poll makes of the row that it is about: an outdated one leaves it alone.
abbrev pub polled : ItemHealthUpdate → ItemHealth → ItemHealth
polled u r = if is_outdated u r then r else polled_row u r

-- A checked update of an Item that is in a table of valid rows is recorded: the call returns the row
-- that the table then holds, which is the polled row, or the row as it was if the poll is older than
-- its clocks. All rows stay valid, and the other Items' rows stay as they are.
pub record_poll_total :
    (rows : List ItemHealth) (item_id : ℕ) (u : ItemHealthUpdate) (r : ItemHealth)
    → All IsValid rows
    → new_item_health_update u ≡ ok u
    → find (has_id item_id) rows ≡ some r
    → (rows' : List ItemHealth) × (record_poll rows item_id u ≡ ok (polled u r, rows'))
      × (find (has_id item_id) rows' ≡ some (polled u r))
      × All IsValid rows'
      × ((other : ℕ) → other ≢ item_id → find (has_id other) rows' ≡ find (has_id other) rows)
unfolding record_poll
record_poll_total rows item_id u r valid hu found =
    let read = get_item-eq rows item_id r (find-All _ rows r valid found) found in
    elim (Bool-cases (is_outdated u r)) [
      | inl e ↦ rw (read, e) (rows, refl, found, valid, λ other _. refl)
      | inr e ↦
          let later : no_later u.polled_at r.last_polled_at ≡ true = ground arith in
          let found' = find-update_rows item_id u rows r found later in
          let valid' = update_rows-All item_id u rows hu valid in
          let read' = get_item-eq _ item_id _ (find-All _ _ _ valid' found') found' in
          rw (read, e, read')
            (
              update_rows item_id u rows,
              refl,
              found',
              valid',
              λ other differ. find-update_other item_id other u rows differ,
            )
    ]

abbrev pub no_earlier : Option ℕ → Option ℕ → Bool
no_earlier none clock = true
no_earlier (some old) none = false
no_earlier (some old) (some now) = leb old now

-- The clocks of an Item never move back, and a poll with no transition leaves its state alone.
pub polled_clocks :
    (u : ItemHealthUpdate) (r : ItemHealth)
    → (r.status_since ≤ (polled u r).status_since)
      × (no_earlier r.last_polled_at (polled u r).last_polled_at ≡ true)
      × (u.status ≡ none → (polled u r).status ≡ r.status)
unfolding polled_row
polled_clocks u r = ground arith

-- A poll that was recorded keeps precedence: one made earlier but recorded after it changes nothing.
pub polled-precedence :
    (u v : ItemHealthUpdate) (r : ItemHealth)
    → is_outdated u r ≡ false
    → v.polled_at < u.polled_at
    → polled v (polled u r) ≡ polled u r
unfolding polled_row
polled-precedence u v r h earlier =
    let outdated : is_outdated v (polled_row u r) ≡ true = ground arith in rw (h, outdated) refl
