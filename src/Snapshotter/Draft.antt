-- ===== src/Snapshotter/Draft.antt =====
-- The checks of the records that `run` builds from its totals: none of them can fail.
use networth.Prelude.{
  ℕ, ◌≤◌, ◌≡◌, refl, true, not, ◌&&◌, Option, none, some, String, List, [], ◌∷◌, arith, ltb, ◌==◌,
}
use text.Mathlib.TextPositions.{eq_refl}
use networth.Prelude.Int.{ℤ, ◌-ℤ◌}
use networth.Prelude.Minimum.{minimum-some}
use networth.Prelude.Result.{ok}
use networth.Model.Texts.{is_nonempty, is_currency}
use networth.Model.Figure.{
  SnapshotAgeState, known, unknown, static_only, SnapshotAge, new_age, age_fits, SourcedFigure,
  figure_of, is_unknown_age, source_clock_of, same_clock,
}
use networth.Model.Snapshot.{new_counts, SnapshotDraft, new_snapshot_draft, figure_matches}
use networth.Snapshotter.{Totals, age_from, age_of, counts_of, draft_of}

abbrev figure_value : SnapshotAge → ℤ → SourcedFigure
figure_value a v = record {
  value_minor = v;
  currency = "USD";
  as_of = a.as_of;
  source_clock = source_clock_of a.state;
}

figure_of_total :
    (s : SnapshotAgeState) (as_of oldest : Option ℕ) (v : ℤ)
    → age_fits s as_of oldest ≡ true
    → figure_of (record { state = s; as_of = as_of; oldest_known_source_as_of = oldest }) v
      ≡ ok
          (figure_value (record { state = s; as_of = as_of; oldest_known_source_as_of = oldest }) v)
unfolding figure_of is_nonempty is_currency
figure_of_total known none oldest v h = cc
figure_of_total known (some t) oldest v h = refl
figure_of_total unknown none oldest v h = refl
figure_of_total unknown (some t) oldest v h = cc
figure_of_total static_only none oldest v h = refl
figure_of_total static_only (some t) oldest v h = cc

same_clock_refl : (o : Option ℕ) → same_clock o o ≡ true
same_clock_refl none = refl
same_clock_refl (some n) = ground arith

-- The age of the totals passes the checks of `SnapshotAge`, and is UNKNOWN exactly if some
-- contributor's clock is unknown.
age_from-fits :
    (n : ℕ) (clocks : List ℕ)
    → (let a = age_from n clocks in age_fits a.state a.as_of a.oldest_known_source_as_of ≡ true)
      × (is_unknown_age (age_from n clocks).state ≡ ltb 0 n)
unfolding age_from
age_from-fits n [] = ground arith
age_from-fits n (x ∷ xs) =
    let (m, e) = minimum-some x xs in rw e (ground (arith, same_clock_refl (some m)))

figure_value-matches : (a : SnapshotAge) (v : ℤ) → figure_matches a (figure_value a v) ≡ true
figure_value-matches a v = rw (same_clock_refl a.as_of) (eq_refl (source_clock_of a.state))

new_age-total :
    (a : SnapshotAge)
    → age_fits a.state a.as_of a.oldest_known_source_as_of ≡ true
    → new_age a ≡ ok a
unfolding new_age
new_age-total a h = rw h refl

-- What the totals of `n` accounts satisfy.
pub record Bounded (n : ℕ) (t : Totals) : Type 0 where
  pub stale : t.stale_count ≤ n
  pub unknown_clock : t.unknown_count ≤ n
  pub static_value : t.static_count ≤ n
  pub reauth : t.reauth_count ≤ n
  pub unreconciled : t.unreconciled_count ≤ n

abbrev pub draft_value : String → ℕ → ℕ → Totals → SnapshotDraft
draft_value run at n t = record {
  sync_run_id = run;
  taken_at = at;
  net_worth = figure_value (age_of t) (t.assets -ℤ t.liabilities);
  assets = figure_value (age_of t) t.assets;
  liabilities = figure_value (age_of t) t.liabilities;
  counts = counts_of n t;
  is_complete = not t.carried_forward && (t.stale_count == 0) && (t.unreconciled_count == 0);
  age = age_of t;
}

new_counts-total :
    (n : ℕ) (t : Totals) → Bounded n t → new_counts (counts_of n t) ≡ ok (counts_of n t)
unfolding new_counts
new_counts-total n t b = ground arith

new_draft-total :
    (run : String) (at n : ℕ) (t : Totals)
    → is_nonempty run ≡ true
    → new_snapshot_draft (draft_value run at n t) ≡ ok (draft_value run at n t)
unfolding new_snapshot_draft
new_draft-total run at n t named =
    let (_, unknown_age) = age_from-fits t.unknown_count t.known_basis_clocks in
    let m = figure_value-matches (age_of t) in
    ground (arith, named, unknown_age, m (t.assets -ℤ t.liabilities), m t.assets, m t.liabilities)

-- The age, the counts and the draft pass all their checks.
pub draft_of_total :
    (run : String) (at n : ℕ) (t : Totals)
    → is_nonempty run ≡ true
    → Bounded n t
    → draft_of run at n t ≡ ok (draft_value run at n t)
unfolding draft_of
draft_of_total run at n t named b =
    let fits = (age_from-fits t.unknown_count t.known_basis_clocks).0 in
    let figure_ok : (v : ℤ) → figure_of (age_of t) v ≡ ok (figure_value (age_of t) v) = λ v.
      figure_of_total (age_of t).state (age_of t).as_of (age_of t).oldest_known_source_as_of v
        fits in
    rw
      (
        new_age-total (age_of t) fits,
        new_counts-total n t b,
        figure_ok (t.assets -ℤ t.liabilities),
        figure_ok t.assets,
        figure_ok t.liabilities,
      )
      (new_draft-total run at n t named)
