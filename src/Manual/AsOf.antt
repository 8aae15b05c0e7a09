-- ===== src/Manual/AsOf.antt =====
-- Reading the log as of a day: the newest revision in force on that day, whatever is dated later.
use networth.Prelude.{
  ℕ, ◌≤◌, ◌<◌, ◌≡◌, ◌↔◌, ap, true, false, none, some, List, [], ◌∷◌, arith, keep, In, keep-In,
  In-keep, leb→le, le→leb, nil_of_no_member, subst,
}
use networth.Prelude.Sort.{
  sort, sort-In, In-sort, keep-IsSorted, last_of-In, last_of-greatest, keep-insert_dropped,
  IsSorted, sort-IsSorted, last, last_of,
}
use native.Mathlib.Decide.{dec_lt}
use networth.Manual.{Revision, new_log, key_before, in_force, as_of_day}

key_before_total : (r s : Revision) → key_before r s ≡ false → key_before s r ≡ true
unfolding key_before
key_before_total r s h = ground arith

key_before_trans :
    (r s t : Revision) → key_before r s ≡ true → key_before s t ≡ true → key_before r t ≡ true
unfolding key_before
key_before_trans r s t h k = ground arith

key_before_refl : (r : Revision) → key_before r r ≡ true
unfolding key_before
key_before_refl r = ground arith

last-greatest :
    (l : List Revision) (r : Revision)
    → last l ≡ some r
    → IsSorted key_before l
    → In r l × ((e : Revision) → In e l → key_before e r ≡ true)
last-greatest [] r h s = cc
last-greatest (x ∷ xs) r h s =
    let same : last_of x xs ≡ r = cc h in
    subst (λ q. In q (x ∷ xs) × ((e : Revision) → In e (x ∷ xs) → key_before e q ≡ true)) same
      (last_of-In key_before x xs, last_of-greatest key_before key_before_refl x xs s)

not_In-none : (l : List Revision) → last l ≡ none → (e : Revision) → In e l → ⊥
not_In-none [] h e m = m
not_In-none (x ∷ xs) h e m = cc

module _ (entries : List Revision) (day : ℕ) where
  in_force-IsSorted : IsSorted key_before (keep (in_force day) (new_log entries).entries)
  unfolding new_log
  in_force-IsSorted =
      keep-IsSorted key_before (in_force day) _
        (sort-IsSorted key_before key_before_total key_before_trans entries)

  In-in_force :
      (e : Revision)
      → In e entries
      → e.valued_as_of ≤ day
      → In e (keep (in_force day) (new_log entries).entries)
  unfolding new_log
  In-in_force e m le = In-keep (in_force day) e _ (In-sort key_before e entries m) (le→leb _ _ le)

  member : (e : Revision) → In e (new_log entries).entries → In e entries
  unfolding new_log
  member e m = sort-In key_before e entries m

  -- The revision in force on a day is one of the log's, is dated no later than the day, and comes
  -- last, by date, then entry time, then sequence, among all that are dated no later than the day.
  pub as_of_day-newest :
      (r : Revision)
      → as_of_day (new_log entries) day ≡ some r
      → In r entries
        × ((r.valued_as_of ≤ day)
            × ((e : Revision) → In e entries → e.valued_as_of ≤ day → key_before e r ≡ true))
  unfolding as_of_day new_log
  as_of_day-newest r h =
      let (m, greatest) =
        last-greatest (keep (in_force day) (new_log entries).entries) r h in_force-IsSorted in
      let (m', q) = keep-In (in_force day) r _ m in
      (sort-In key_before r entries m', (leb→le _ _ q, λ e m le. greatest e (In-in_force e m le)))

  -- There is no revision in force on a day exactly if the log has none dated by then.
  pub as_of_day-none_iff :
      (as_of_day (new_log entries) day ≡ none)
      ↔ ((e : Revision) → In e entries → day < e.valued_as_of)
  unfolding as_of_day
  as_of_day-none_iff = (
    λ h e m. elim (dec_lt day e.valued_as_of) [
      | yes later ↦ later
      | no not_later ↦ absurd (
          not_In-none (keep (in_force day) (new_log entries).entries) h e
            (In-in_force e m (omega arith)))
    ],
    λ all_later. ap last (
        nil_of_no_member (keep (in_force day) (new_log entries).entries) λ e m.
          let (m', q) = keep-In (in_force day) e _ m in
          let late = all_later e (member e m') in omega (arith, leb→le e.valued_as_of day q)),
  )

  -- A revision dated after a day changes nothing that the log says of that day.
  pub as_of_day-future :
      (e : Revision)
      → day < e.valued_as_of
      → as_of_day (new_log (e ∷ entries)) day ≡ as_of_day (new_log entries) day
  unfolding as_of_day new_log sort
  as_of_day-future e later =
      ap last
        (keep-insert_dropped key_before (in_force day) e (sort key_before entries) (ground arith))
