-- ===== src/Dispatch/Backoff.antt =====
-- networth/dispatch.py: what a recorded retry does to the Item's next activations.
use networth.Prelude.{
  ℕ, zero, suc, ◌+◌, ◌-◌, ◌*◌, ◌≤◌, ◌<◌, ◌≡◌, ◌≢◌, ◌∙◌, ap, refl, sym, inl, inr, Bool, true, false,
  ◌&&◌, Bool-cases, Option, none, some, List, [], ◌∷◌, ◌++◌, ltb, ◌==◌, arith, contains, keep,
  not_same, lt→ltb, any,
}
use mathlib.Core.List.{append-nil}
use networth.Calendar.Dates.{hour}
use networth.Store.Tables.{RetryRow, find}
use networth.Sync.Records.{SyncItemOutcome}
use networth.Dispatch.{
  deferred_items, power_of_two, is_row_of, without_item, update_row, put_row, lesser_of, retry_row,
  record_retry, record_retries,
}

keep-append :
    {A : Type 0} (p : A → Bool) (xs ys : List A) → keep p (xs ++ ys) ≡ keep p xs ++ keep p ys
keep-append p [] ys = refl
keep-append p (x ∷ xs) ys = elim (Bool-cases (p x)) [
  | inl e ↦ rw (e, keep-append p xs ys) refl
  | inr e ↦ rw (e, keep-append p xs ys) refl
]

keep-none : {A : Type 0} (p : A → Bool) (xs : List A) → any p xs ≡ false → keep p xs ≡ []
keep-none p [] h = refl
keep-none p (x ∷ xs) h =
    let here : p x ≡ false = ground arith in
    let later : any p xs ≡ false = ground arith in rw here (keep-none p xs later)

-- The Item's rows alone decide whether it is deferred.
deferred-rows :
    (item at : ℕ) (rows : List RetryRow)
    → contains item (deferred_items rows at)
      ≡ any (λ (r : RetryRow). ltb at r.next_attempt_at) (keep (is_row_of item) rows)
unfolding deferred_items
deferred-rows item at [] = refl
deferred-rows item at (r ∷ rows) =
    let swap : (item == r.item_id) ≡ (r.item_id == item) = ground arith in
    ground (arith, deferred-rows item at rows)

-- A change of another Item's row leaves this one's alone.
keep-update_row :
    (item : ℕ) (r : RetryRow) (rows : List RetryRow)
    → r.item_id ≢ item
    → keep (is_row_of item) (update_row r rows) ≡ keep (is_row_of item) rows
keep-update_row item r [] h = refl
keep-update_row item r (x ∷ rows) h =
    let rest = keep-update_row item r rows h in
    let apart : (r.item_id == item) ≡ false = ground arith in
    elim (Bool-cases (x.item_id == r.item_id)) [
      | inl e ↦ let other : (x.item_id == item) ≡ false = ground arith in rw (e, apart, other) rest
      | inr e ↦ rw e (elim (Bool-cases (x.item_id == item)) [
        | inl own ↦ rw (own, rest) refl
        | inr other ↦ rw other rest
      ])
    ]

keep-put_row :
    (item : ℕ) (r : RetryRow) (rows : List RetryRow)
    → r.item_id ≢ item
    → keep (is_row_of item) (put_row r rows) ≡ keep (is_row_of item) rows
keep-put_row item r rows h = elim (Bool-cases (any (is_row_of r.item_id) rows)) [
  | inl e ↦ rw e (keep-update_row item r rows h)
  | inr e ↦
      let apart : (r.item_id == item) ≡ false = ground arith in
      rw e (keep-append (is_row_of item) rows (r ∷ []) ∙ rw apart (append-nil _))
]

keep-without_item :
    (item other : ℕ) (rows : List RetryRow)
    → other ≢ item
    → keep (is_row_of item) (without_item other rows) ≡ keep (is_row_of item) rows
keep-without_item item other [] h = refl
keep-without_item item other (x ∷ rows) h =
    let rest = keep-without_item item other rows h in
    elim (Bool-cases (x.item_id == other)) [
      | inl e ↦ let apart : (x.item_id == item) ≡ false = ground arith in rw (e, apart) rest
      | inr e ↦ rw e (elim (Bool-cases (x.item_id == item)) [
        | inl own ↦ rw (own, rest) refl
        | inr apart ↦ rw apart rest
      ])
    ]

own-without_item :
    (item : ℕ) (rows : List RetryRow) → keep (is_row_of item) (without_item item rows) ≡ []
own-without_item item [] = refl
own-without_item item (x ∷ rows) = elim (Bool-cases (x.item_id == item)) [
  | inl e ↦ rw e (own-without_item item rows)
  | inr e ↦ rw (e, e) (own-without_item item rows)
]

own-update_row :
    (r : RetryRow) (rows : List RetryRow) (at : ℕ)
    → any
        (λ (x : RetryRow). ltb at x.next_attempt_at)
        (keep (is_row_of r.item_id) (update_row r rows))
      ≡ (any (is_row_of r.item_id) rows && ltb at r.next_attempt_at)
own-update_row r [] at = refl
own-update_row r (x ∷ rows) at =
    let own : (r.item_id == r.item_id) ≡ true = ground arith in
    let rest = own-update_row r rows at in
    elim (Bool-cases (x.item_id == r.item_id)) [
      | inl e ↦ rw (e, own) (ground arith)
      | inr e ↦ rw (e, e) rest
    ]

-- The row that a failure puts is the Item's only evidence.
own-put_row :
    (r : RetryRow) (rows : List RetryRow) (at : ℕ)
    → any (λ (x : RetryRow). ltb at x.next_attempt_at) (keep (is_row_of r.item_id) (put_row r rows))
      ≡ ltb at r.next_attempt_at
own-put_row r rows at = elim (Bool-cases (any (is_row_of r.item_id) rows)) [
  | inl e ↦ rw e (own-update_row r rows at ∙ rw e refl)
  | inr e ↦
      let own : (r.item_id == r.item_id) ≡ true = ground arith in
      let kept : keep (is_row_of r.item_id) (rows ++ r ∷ []) ≡ r ∷ [] =
        keep-append (is_row_of r.item_id) rows (r ∷ [])
        ∙ rw (keep-none (is_row_of r.item_id) rows e, own) refl in
      rw (e, kept) (ground arith)
]

power_of_two-bounds : (n : ℕ) → n ≤ 3 → (1 ≤ power_of_two n) × (power_of_two n ≤ 8)
power_of_two-bounds zero h = (omega arith, omega arith)
power_of_two-bounds (suc zero) h = (omega arith, omega arith)
power_of_two-bounds (suc (suc zero)) h = (omega arith, omega arith)
power_of_two-bounds (suc (suc (suc zero))) h = (omega arith, omega arith)
power_of_two-bounds (suc (suc (suc (suc n)))) h = omega (arith, h)

-- The delay after a failure is one, two, four or eight hours.
retry_row-delay :
    (item : ℕ) (found : Option RetryRow) (at : ℕ)
    → (at + hour ≤ (retry_row item found at).next_attempt_at)
      × ((retry_row item found at).next_attempt_at ≤ at + 8 * hour)
retry_row-delay item none at = (omega arith, omega arith)
retry_row-delay item (some r) at =
    let (low, high) = power_of_two-bounds (lesser_of (r.failures + 1) 4 - 1) (ground arith) in
    (omega (arith, low), omega (arith, high))

-- Later outcomes of other Items change nothing for this one.
keep-record_retry :
    (item : ℕ) (o : SyncItemOutcome) (at : ℕ) (rows : List RetryRow)
    → o.item_id ≢ item
    → keep (is_row_of item) (record_retry o at rows) ≡ keep (is_row_of item) rows
unfolding record_retry
keep-record_retry item o at rows h = elim (Bool-cases o.attempted) [
  | inr e ↦ rw e refl
  | inl e ↦ rw e (elim (Bool-cases o.failed) [
    | inl f ↦
        rw f (keep-put_row item (retry_row o.item_id (find (is_row_of o.item_id) rows) at) rows h)
    | inr f ↦ rw f (keep-without_item item o.item_id rows h)
  ])
]

keep-record_retries :
    (item at : ℕ) (os : List SyncItemOutcome) (rows : List RetryRow)
    → any (λ (o : SyncItemOutcome). o.item_id == item) os ≡ false
    → keep (is_row_of item) (record_retries os at rows) ≡ keep (is_row_of item) rows
unfolding record_retries
keep-record_retries item at [] rows h = refl
keep-record_retries item at (o ∷ os) rows h =
    let here : (o.item_id == item) ≡ false = ground arith in
    let apart : o.item_id ≢ item = λ e. not_same (sym e) here in
    let later : any (λ (o : SyncItemOutcome). o.item_id == item) os ≡ false = ground arith in
    keep-record_retries item at os (record_retry o at rows) later
    ∙ keep-record_retry item o at rows apart

succeeded :
    (o : SyncItemOutcome) (at t : ℕ) (rows : List RetryRow)
    → o.attempted ≡ true
    → o.failed ≡ false
    → any
        (λ (x : RetryRow). ltb t x.next_attempt_at)
        (keep (is_row_of o.item_id) (record_retry o at rows))
      ≡ false
unfolding record_retry
succeeded o at t rows h f = rw (h, f, own-without_item o.item_id rows) refl

failed_again :
    (o : SyncItemOutcome) (at t : ℕ) (rows : List RetryRow)
    → o.attempted ≡ true
    → o.failed ≡ true
    → any
        (λ (x : RetryRow). ltb t x.next_attempt_at)
        (keep (is_row_of o.item_id) (record_retry o at rows))
      ≡ ltb t (retry_row o.item_id (find (is_row_of o.item_id) rows) at).next_attempt_at
unfolding record_retry
failed_again o at t rows h f =
    rw (h, f) (own-put_row (retry_row o.item_id (find (is_row_of o.item_id) rows) at) rows t)

not_before : (t n : ℕ) → n ≤ t → ltb t n ≡ false
not_before t n h = ground arith

-- After the retries of a plan are recorded, an Item that was attempted and did not fail is not deferred
-- at any time. One that was attempted and failed is deferred until an hour after the run finished, and no
-- longer than eight hours. No later outcome of the plan is about the same Item.
pub record_retries-delay :
    (before after : List SyncItemOutcome) (o : SyncItemOutcome) (at : ℕ) (rows : List RetryRow)
    → o.attempted ≡ true
    → any (λ (x : SyncItemOutcome). x.item_id == o.item_id) after ≡ false
    → (let rows' = record_retries (before ++ o ∷ after) at rows in
        (o.failed ≡ false → (t : ℕ) → contains o.item_id (deferred_items rows' t) ≡ false)
        × (o.failed ≡ true
            → ((t : ℕ) → t < at + hour → contains o.item_id (deferred_items rows' t) ≡ true)
              × ((t : ℕ)
                  → at + 8 * hour ≤ t
                  → contains o.item_id (deferred_items rows' t) ≡ false)))
unfolding record_retries
record_retries-delay [] after o at rows h others =
    let seen = λ (t : ℕ).
      deferred-rows o.item_id t (record_retries after at (record_retry o at rows))
      ∙ ap (any (λ (x : RetryRow). ltb t x.next_attempt_at))
          (keep-record_retries o.item_id at after (record_retry o at rows) others) in
    let row = retry_row o.item_id (find (is_row_of o.item_id) rows) at in
    let (low, high) = retry_row-delay o.item_id (find (is_row_of o.item_id) rows) at in
    (
      λ ok_item t. seen t ∙ succeeded o at t rows h ok_item,
      λ failed_item. (
        λ t early.
            seen t
            ∙ failed_again o at t rows h failed_item
            ∙ lt→ltb t row.next_attempt_at (omega (arith, low, early)),
        λ t late.
            seen t
            ∙ failed_again o at t rows h failed_item
            ∙ not_before t row.next_attempt_at (omega (arith, high, late)),
      ),
    )
record_retries-delay (b ∷ before) after o at rows h others =
    record_retries-delay before after o at (record_retry b at rows) h others
