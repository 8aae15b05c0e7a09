-- ===== src/Store/Retries.antt =====
-- `SnapshotRepository.append` on an exact retry.
use networth.Prelude.{
  ℕ, ◌≡◌, refl, sym, subst, ◌∙◌, Bool, true, false, Option, none, some, String, str_eq, List, [],
  ◌∷◌, ◌++◌, arith, ltb, ◌==◌, Bool-cases, Option-cases, inl, inr,
}
use text.Mathlib.TextPositions.{eq_refl}
use networth.Prelude.Int.{ℤ, pos, negsuc, ◌==ℤ◌}
use networth.Prelude.Result.{ok, err, >>=-eq-ok, ok-injective, snapshot_conflict}
use networth.Model.Figure.{
  SnapshotAgeState, known, unknown, static_only, SnapshotAge, new_age, SourcedFigure, same,
  same_clock,
}
use networth.Model.Snapshot.{
  SnapshotCounts, new_counts, SnapshotDraft, new_snapshot_draft, Snapshot,
}
use networth.Store.Tables.{Database, find, find-hit, find-miss}
use networth.Store.Snapshots.{
  snapshot_from_row, same_figure, same_counts, same_age_state, same_age, same_draft,
  snapshot_for_run, require_successful_run, next_snapshot_id, append_new, append_snapshot,
}

-- A draft as its constructor leaves it.
pub record IsChecked (d : SnapshotDraft) : Type 0 where
  pub age_checked : new_age d.age ≡ ok d.age
  pub counts_checked : new_counts d.counts ≡ ok d.counts
  pub draft_checked : new_snapshot_draft d ≡ ok d

same_number_refl : (n : ℕ) → (n == n) ≡ true
same_number_refl n = ground arith

same_int_refl : (z : ℤ) → (z ==ℤ z) ≡ true
same_int_refl (pos n) = ground arith
same_int_refl (negsuc n) = ground arith

same_clock_refl : (o : Option ℕ) → same_clock o o ≡ true
same_clock_refl none = refl
same_clock_refl (some n) = ground arith

same_refl : (b : Bool) → same b b ≡ true
same_refl true = refl
same_refl false = refl

same_age_state_refl : (s : SnapshotAgeState) → same_age_state s s ≡ true
same_age_state_refl known = refl
same_age_state_refl unknown = refl
same_age_state_refl static_only = refl

same_figure_refl : (f : SourcedFigure) → same_figure f f ≡ true
same_figure_refl f =
    rw
      (
        same_int_refl f.value_minor,
        eq_refl f.currency,
        same_clock_refl f.as_of,
        eq_refl f.source_clock,
      )
      refl

same_counts_refl : (c : SnapshotCounts) → same_counts c c ≡ true
same_counts_refl c = ground arith

same_age_refl : (a : SnapshotAge) → same_age a a ≡ true
same_age_refl a =
    rw
      (
        same_age_state_refl a.state,
        same_clock_refl a.as_of,
        same_clock_refl a.oldest_known_source_as_of,
      )
      refl

same_draft_refl : (d : SnapshotDraft) → same_draft d d ≡ true
unfolding same_draft
same_draft_refl d =
    rw
      (
        eq_refl d.sync_run_id,
        same_number_refl d.taken_at,
        same_figure_refl d.net_worth,
        same_figure_refl d.assets,
        same_figure_refl d.liabilities,
        same_counts_refl d.counts,
        same_refl d.is_complete,
        same_age_refl d.age,
      )
      refl

next_snapshot_id_positive : (rows : List Snapshot) → ltb 0 (next_snapshot_id rows) ≡ true
next_snapshot_id_positive [] = refl
next_snapshot_id_positive (s ∷ ss) = ground (arith, next_snapshot_id_positive ss)

find-append_new :
    (p : Snapshot → Bool) (rows : List Snapshot) (s : Snapshot)
    → find p rows ≡ none
    → p s ≡ true
    → find p (rows ++ s ∷ []) ≡ some s
find-append_new p [] s absent hit = find-hit p s [] hit
find-append_new p (x ∷ xs) s absent hit = elim (Bool-cases (p x)) [
  | inl e ↦ let bad = sym (find-hit p x xs e) ∙ absent in cc
  | inr e ↦
      find-miss p x (xs ++ s ∷ []) e
      ∙ find-append_new p xs s (sym (find-miss p x xs e) ∙ absent) hit
]

-- The row of a new snapshot is read back as it was written.
stored_read :
    (rows : List Snapshot) (d : SnapshotDraft) (s : Snapshot)
    → IsChecked d
    → s ≡ record { draft = d; id = next_snapshot_id rows }
    → snapshot_from_row s ≡ ok s
unfolding snapshot_from_row
stored_read rows d s checked e =
    subst (λ (x : Snapshot). snapshot_from_row x ≡ ok x) (sym e)
      (rw
        (
          checked.age_checked,
          checked.counts_checked,
          checked.draft_checked,
          next_snapshot_id_positive rows,
        )
        refl)

no_row_of :
    (rows : List Snapshot) (run : String)
    → snapshot_for_run rows run ≡ ok none
    → find (λ s. str_eq s.sync_run_id run) rows ≡ none
unfolding snapshot_for_run
no_row_of rows run h = elim (Option-cases (find (λ s. str_eq s.sync_run_id run) rows)) [
  | inl e ↦ e
  | inr (s, e) ↦ let (r, read, bad) = >>=-eq-ok (snapshot_from_row s) _ (rw e at h) in cc
]

found_again :
    (rows : List Snapshot) (d : SnapshotDraft) (s : Snapshot)
    → IsChecked d
    → s ≡ record { draft = d; id = next_snapshot_id rows }
    → snapshot_for_run rows d.sync_run_id ≡ ok none
    → snapshot_for_run (rows ++ s ∷ []) d.sync_run_id ≡ ok (some s)
unfolding snapshot_for_run
found_again rows d s checked e absent =
    rw
      (
        find-append_new (λ x. str_eq x.sync_run_id d.sync_run_id) rows s
            (no_row_of rows d.sync_run_id absent)
            (subst (λ (x : Snapshot). str_eq x.sync_run_id d.sync_run_id ≡ true) (sym e)
              (eq_refl d.sync_run_id)),
        stored_read rows d s checked e,
      )
      refl

append_again :
    (db : Database) (d : SnapshotDraft) (existing : Option Snapshot) (p : Snapshot × Database)
    → IsChecked d
    → require_successful_run db.runs d.sync_run_id ≡ ok tt
    → snapshot_for_run db.snapshots d.sync_run_id ≡ ok existing
    → append_new db d existing ≡ ok p
    → append_snapshot p.1 d ≡ ok p
unfolding append_snapshot
append_again db d none p checked ran read h =
    let stored : Snapshot = record { draft = d; id = next_snapshot_id db.snapshots } in
    subst (λ (q : Snapshot × Database). append_snapshot q.1 d ≡ ok q) (ok-injective h)
      (rw (ran, found_again db.snapshots d stored checked refl read, same_draft_refl d) refl)
append_again db d (some x) p checked ran read h = elim (Bool-cases (same_draft x.draft d)) [
  | inl e ↦
      subst (λ (q : Snapshot × Database). append_snapshot q.1 d ≡ ok q) (ok-injective (rw e at h))
        (rw (ran, read, e) refl)
  | inr e ↦ let bad : err snapshot_conflict ≡ ok p = (rw e at h) in cc
]

-- Appending a checked draft again returns the row that the first append returned, and changes
-- nothing.
pub append_snapshot-idempotent :
    (db db' : Database) (d : SnapshotDraft) (s : Snapshot)
    → IsChecked d
    → append_snapshot db d ≡ ok (s, db')
    → append_snapshot db' d ≡ ok (s, db')
unfolding append_snapshot
append_snapshot-idempotent db db' d s checked h =
    let (_, ran, h1) = >>=-eq-ok (require_successful_run db.runs d.sync_run_id) _ h in
    let (existing, read, h2) = >>=-eq-ok (snapshot_for_run db.snapshots d.sync_run_id) _ h1 in
    append_again db d existing (s, db') checked ran read h2
