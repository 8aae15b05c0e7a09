-- ===== src/Snapshotter/Honest.antt =====
-- `Snapshotter.run` as a whole: it never refuses its own totals, they describe the entries, and a
-- dated total is as old as its oldest clock.
use networth.Prelude.{
  ℕ, ◌≡◌, ◌∙◌, refl, ap, sym, true, not, ◌&&◌, String, List, [], ◌∷◌, length, any, arith, ◌==◌,
  subst,
}
use mathlib.Core.Path.{ap₂}
use networth.Prelude.Int.{◌-ℤ◌, int_laws}
use networth.Prelude.Result.{Result, ok, >>=-eq-ok, ok-injective, raise_if, invalid_draft}
use networth.Calendar.Market.{Calendar}
use networth.Model.Texts.{is_nonempty}
use networth.Model.Observation.{Observation}
use networth.Model.Account.{SnapshotAccount}
use networth.Model.Snapshot.{SnapshotDraft}
use networth.Store.Tables.{Database, convert}
use networth.Store.Accounts.{for_snapshot}
use networth.Store.Observations.{for_sync_run}
use networth.Snapshotter.{no_totals, asks_owner, add_accounts, age_from, compute}
use networth.Snapshotter.Draft.{Bounded, draft_value, draft_of_total}
use networth.Snapshotter.Entries.{Entry, entry_of, add_entries, add_accounts-eq}
use networth.Snapshotter.Sums.{
  signed_total, count, count-le, clocks, is_late_entry, is_unknown_entry, is_static_entry,
  is_carried_entry, is_unread, add_entries-Counted,
}

-- The entries of a run, as its tables give them.
pub record EntriesOf (c : Calendar) (db : Database) (run : String) (at : ℕ) (es : List Entry)
    : Type 0 where
  pub accounts : List SnapshotAccount
  pub run_observations : List Observation
  pub active_accounts : for_snapshot db.accounts ≡ ok accounts
  pub observed : for_sync_run db.observations run ≡ ok run_observations
  pub entries : convert (entry_of c db run_observations at) accounts ≡ ok es

-- What a draft says of the entries.
pub record Describes (es : List Entry) (d : SnapshotDraft) : Type 0 where
  pub net_worth : d.net_worth.value_minor ≡ signed_total es
  pub balanced : d.net_worth.value_minor ≡ d.assets.value_minor -ℤ d.liabilities.value_minor
  pub account_count : d.counts.account_count ≡ length es
  pub stale : d.counts.stale_account_count ≡ count is_late_entry es
  pub unknown_clock : d.counts.unknown_freshness_account_count ≡ count is_unknown_entry es
  pub static_value : d.counts.static_account_count ≡ count is_static_entry es
  pub reauth : d.counts.reauth_account_count ≡ count (λ e. asks_owner e.item) es
  pub unreconciled : d.counts.unreconciled_account_count ≡ count (λ e. is_unread e.read) es
  pub complete : d.is_complete ≡ (
      not (any is_carried_entry es)
      && (count is_late_entry es == 0)
      && (count (λ e. is_unread e.read) es == 0))
  pub age : d.age ≡ age_from (count is_unknown_entry es) (clocks es)

length-convert {ℓ κ} :
    {A : Type ℓ} {B : Type κ} (f : A → Result B) (xs : List A) {ys : List B}
    → convert f xs ≡ ok ys
    → length ys ≡ length xs
unfolding convert
length-convert f [] {ys} h = ap length (sym (ok-injective h))
length-convert f (x ∷ xs) {ys} h =
    let (y, _, h') = >>=-eq-ok (f x) _ h in
    let (rest, e, h'') = >>=-eq-ok (convert f xs) _ h' in
    let same : y ∷ rest ≡ ys = ok-injective h'' in
    omega (arith, ap length same, length-convert f xs e)

totals-Bounded : (es : List Entry) → Bounded (length es) (add_entries es no_totals)
totals-Bounded es =
    let k = add_entries-Counted es no_totals in
    record {
      stale = omega (arith, k.stale, count-le is_late_entry es);
      unknown_clock = omega (arith, k.unknown_clock, count-le is_unknown_entry es);
      static_value = omega (arith, k.static_value, count-le is_static_entry es);
      reauth = omega (arith, k.reauth, count-le (λ e. asks_owner e.item) es);
      unreconciled = omega (arith, k.unreconciled, count-le (λ e. is_unread e.read) es);
    }

draft_value-Describes :
    (run : String) (at : ℕ) (es : List Entry)
    → Describes es (draft_value run at (length es) (add_entries es no_totals))
draft_value-Describes run at es =
    let k = add_entries-Counted es no_totals in
    record {
      net_worth = k.value ∙ omega int_laws;
      balanced = refl;
      account_count = refl;
      stale = omega (arith, k.stale);
      unknown_clock = omega (arith, k.unknown_clock);
      static_value = omega (arith, k.static_value);
      reauth = omega (arith, k.reauth);
      unreconciled = omega (arith, k.unreconciled);
      complete = ground (arith, k.carried, k.stale, k.unreconciled);
      age = ap₂ age_from (omega (arith, k.unknown_clock)) k.basis;
    }

module _ (c : Calendar) (db : Database) (run : String) (at : ℕ) where
  compute-eq :
      (es : List Entry)
      → is_nonempty run ≡ true
      → EntriesOf c db run at es
      → compute c db run at ≡ ok (draft_value run at (length es) (add_entries es no_totals))
  unfolding compute
  compute-eq es named e =
      rw
        (
          named,
          e.active_accounts,
          e.observed,
          add_accounts-eq c db e.run_observations at e.accounts no_totals,
          e.entries,
          ← length-convert (entry_of c db e.run_observations at) e.accounts e.entries,
        )
        (draft_of_total run at (length es) (add_entries es no_totals) named (totals-Bounded es))

  -- A named run whose accounts can all be read yields a draft: no check of the age, the counts, the
  -- figures or the draft refuses it. The draft's net worth, counts, completeness and age are those
  -- of the accounts' entries.
  pub compute_total :
      (es : List Entry)
      → is_nonempty run ≡ true
      → EntriesOf c db run at es
      → (d : SnapshotDraft) × (compute c db run at ≡ ok d) × Describes es d
  compute_total es named e = (
    draft_value run at (length es) (add_entries es no_totals),
    compute-eq es named e,
    draft_value-Describes run at es,
  )

  -- Every draft that a run computes describes the entries of the accounts.
  pub compute-Describes :
      (d : SnapshotDraft)
      → compute c db run at ≡ ok d
      → (es : List Entry) × EntriesOf c db run at es × Describes es d
  unfolding compute
  compute-Describes d h =
      let (_, named, h1) = >>=-eq-ok (raise_if (not (is_nonempty run)) invalid_draft) _ h in
      let (accounts, active, h2) = >>=-eq-ok (for_snapshot db.accounts) _ h1 in
      let (obs, observed, h3) = >>=-eq-ok (for_sync_run db.observations run) _ h2 in
      let (t, added, h4) = >>=-eq-ok (add_accounts c db obs at accounts no_totals) _ h3 in
      let (es, read, _) =
        >>=-eq-ok (convert (entry_of c db obs at) accounts) _
          (sym (add_accounts-eq c db obs at accounts no_totals) ∙ added) in
      let e : EntriesOf c db run at es = record {
        accounts = accounts;
        run_observations = obs;
        active_accounts = active;
        observed = observed;
        entries = read;
      } in
      let same = sym (ok-injective (sym (compute-eq es (named_of named) e) ∙ h)) in
      (es, e, subst (λ x. Describes es x) (sym same) (draft_value-Describes run at es))
    where
      named_of : raise_if (not (is_nonempty run)) invalid_draft ≡ ok tt → is_nonempty run ≡ true
      named_of p = ground arith
