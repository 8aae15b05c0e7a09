-- ===== src/Poller/Batch.antt =====
-- Whole sweeps of the poller: what `_collect` observes and what `persist` records.
use networth.Prelude.{
  ℕ, ◌+◌, ◌≡◌, ◌≢◌, refl, sym, ap, ◌∙◌, some, String, List, [], ◌∷◌, length, arith, All, All-map,
  All-of_In, All-keep, keep, keep-In, ◌-◌, In, same_number, not_same, subst, suc, ◌==◌, Bool-cases,
  inl, inr,
}
use networth.Prelude.Result.{Result, ok, Result-cases, >>=-eq-ok}
use networth.Model.Item.{ItemHealth, ItemHealthUpdate, new_item_health_update}
use networth.Plaid.{ItemStatus}
use networth.Store.Tables.{convert, find, find-hit, find-miss}
use networth.Store.Items.{item_from_row, due_at_or_before, no_later}
use networth.Store.Polls.{IsValid, polled, record_poll_total}
use networth.Poller.Observe.{new_item_health_update-eq}
use networth.Poller.{
  PollBatchResult, record_all, persist, observe, collect_each, collect, observe_status, poll_due,
  collect_due, poll_interval,
}

-- Some row has the id.
abbrev pub IsStored : List ItemHealth → ℕ → Type 0
IsStored rows item_id =
    (r : ItemHealth) × (find (λ (x : ItemHealth). x.id == item_id) rows ≡ some r)

-- An observation that `persist` can record.
abbrev pub IsRecordable : List ItemHealth → ℕ × ItemHealthUpdate → Type 0
IsRecordable rows (item_id, u) = IsStored rows item_id × (new_item_health_update u ≡ ok u)

IsStored-of_In : (r : ItemHealth) (rows : List ItemHealth) → In r rows → IsStored rows r.id
IsStored-of_In r [] h = absurd h
IsStored-of_In r (x ∷ xs) h = elim (Bool-cases (x.id == r.id)) [
  | inl e ↦ (x, find-hit (λ y. y.id == r.id) x xs e)
  | inr e ↦ elim h [
    | inl same ↦ absurd (not_same (ap (λ y. y.id) same) e)
    | inr m ↦
        let (y, found) = IsStored-of_In r xs m in (y, find-miss (λ y. y.id == r.id) x xs e ∙ found)
  ]
]

-- One recorded poll keeps every id of the table.
IsStored-next :
    (rows rows' : List ItemHealth) (item_id : ℕ) (r : ItemHealth)
    → find (λ x. x.id == item_id) rows' ≡ some r
    → ((other : ℕ)
        → other ≢ item_id
        → find (λ x. x.id == other) rows' ≡ find (λ x. x.id == other) rows)
    → (other : ℕ) → IsStored rows other
    → IsStored rows' other
IsStored-next rows rows' item_id r found same other stored = elim (Bool-cases (other == item_id)) [
  | inl e ↦
      (r, subst (λ n. find (λ x. x.id == n) rows' ≡ some r) (same_number item_id other e) found)
  | inr e ↦ (stored.0, same other (λ q. not_same (sym q) e) ∙ stored.1)
]

-- What `persist` does with a plan whose observations are all recordable.
record_all_total :
    (observations : List (ℕ × ItemHealthUpdate)) (rows : List ItemHealth)
    → All IsValid rows
    → All (IsRecordable rows) observations
    → (recorded : List ItemHealth) × (rows' : List ItemHealth) × (record_all rows observations
        ≡ ok (recorded, rows'))
      × (length recorded ≡ length observations)
      × All IsValid rows'
unfolding record_all
record_all_total [] rows valid h = ([], rows, refl, refl, valid)
record_all_total ((item_id, u) ∷ rest) rows valid ((stored, checked), h) =
    let (rows', ran, found, valid', same) =
      record_poll_total rows item_id u stored.0 valid checked stored.1 in
    let later = IsStored-next rows rows' item_id (polled u stored.0) found same in
    let (recorded, rows'', ran', n, valid'') =
      record_all_total rest rows' valid' (All-map _ _ rest (λ o q. (later o.0 q.0, q.1)) h) in
    rw (ran, ran') (polled u stored.0 ∷ recorded, rows'', refl, ap suc n, valid'')

module _ (tokens : String → Result String) (client : String → Result ItemStatus) where
  -- Each target is either observed or reported as failed.
  collect_each-length :
      (targets : List ItemHealth) (at : ℕ)
      → (let (observations, failures) = collect_each tokens client targets at in
          length observations + length failures ≡ length targets)
  unfolding collect_each
  collect_each-length [] at = refl
  collect_each-length (t ∷ ts) at = elim (Result-cases (observe tokens client t at)) [
    | inl (e, q) ↦ rw q (omega (arith, collect_each-length ts at))
    | inr (u, q) ↦ rw q (omega (arith, collect_each-length ts at))
  ]

  observe-checked :
      (t : ItemHealth) (at : ℕ) (u : ItemHealthUpdate)
      → observe tokens client t at ≡ ok u
      → new_item_health_update u ≡ ok u
  unfolding observe observe_status
  observe-checked t at u h =
      let (secret, got, rest) = >>=-eq-ok (tokens t.secret_ref) _ h in
      let (s, answered, made) = >>=-eq-ok (client secret) _ rest in
      rw (new_item_health_update-eq _ u made) (rw (new_item_health_update-eq _ u made) at made)

  collect_each-IsRecordable :
      (rows targets : List ItemHealth) (at : ℕ)
      → All (λ t. IsStored rows t.id) targets
      → All (IsRecordable rows) (collect_each tokens client targets at).0
  unfolding collect_each
  collect_each-IsRecordable rows [] at h = tt
  collect_each-IsRecordable rows (t ∷ ts) at (stored, h) =
      elim (Result-cases (observe tokens client t at)) [
        | inl (e, q) ↦ rw q (collect_each-IsRecordable rows ts at h)
        | inr (u, q) ↦
            rw q ((stored, observe-checked t at u q), collect_each-IsRecordable rows ts at h)
      ]

  -- The rows of a table of valid rows are read back as they are.
  convert-rows : (rows : List ItemHealth) → All IsValid rows → convert item_from_row rows ≡ ok rows
  unfolding convert item_from_row
  convert-rows [] h = refl
  convert-rows (r ∷ rs) (h, hs) = rw (h, convert-rows rs hs) refl

  -- A sweep over stored targets.
  persist-collect_total :
      (rows targets : List ItemHealth) (at : ℕ)
      → All IsValid rows
      → All (λ t. IsStored rows t.id) targets
      → (result : PollBatchResult) × (rows' : List ItemHealth) × (persist rows
            (collect tokens client targets at)
          ≡ ok (result, rows'))
        × (length result.recorded + length result.failure_types ≡ length targets)
        × All IsValid rows'
  unfolding persist collect
  persist-collect_total rows targets at valid stored =
      let (recorded, rows', ran, n, valid') =
        record_all_total _ rows valid (collect_each-IsRecordable rows targets at stored) in
      rw ran (_, rows', refl, omega (arith, n, collect_each-length targets at), valid')

  -- The sweep of the due Items ends as well: of the Items never polled, or last polled at least an
  -- hour ago, each is either recorded or counted as failed, and all rows stay valid.
  pub poll_due_total :
      (rows : List ItemHealth) (at : ℕ)
      → All IsValid rows
      → (let due = keep (λ r. no_later (at - poll_interval) r.last_polled_at) rows in
          (result : PollBatchResult) × (rows' : List ItemHealth) × (poll_due tokens client rows at
            ≡ ok (result, rows'))
          × (length result.recorded + length result.failure_types ≡ length due)
          × All IsValid rows')
  unfolding poll_due collect_due due_at_or_before
  poll_due_total rows at valid =
      let is_due = λ (r : ItemHealth). no_later (at - poll_interval) r.last_polled_at in
      rw (convert-rows (keep is_due rows) (All-keep is_due IsValid rows valid)) (
        persist-collect_total rows (keep is_due rows) at valid (
          All-of_In (λ t. IsStored rows t.id) (keep is_due rows)
            (λ r m. IsStored-of_In r rows (keep-In is_due r rows m).0)))
