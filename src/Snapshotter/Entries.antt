-- ===== src/Snapshotter/Entries.antt =====
-- The loop of `run` against a plain description: first every account's entry, then sums, counts
-- and clocks over the list of entries.
use networth.Prelude.{
  ℕ, ◌+◌, ◌≡◌, refl, inl, inr, Option, none, some, List, [], ◌∷◌, if◌then◌else◌, Bool-cases,
}
use networth.Prelude.Result.{Result, ok, ◌>>=◌, Result-cases}
use networth.Calendar.Market.{Calendar}
use networth.Model.Item.{ItemHealth}
use networth.Model.Observation.{Observation}
use networth.Model.Freshness.{FreshnessAssessment}
use networth.Model.Account.{SnapshotAccount, is_new}
use networth.Store.Tables.{Database, convert}
use networth.Snapshotter.{
  Totals, item_for, contribution, add_contribution, add_account, add_accounts, asks_owner, count_if,
}

-- What a run knows of one account: its Item, and its observation with the assessment unless the
-- account is NEW.
pub record Entry : Type 0 where
  pub account : SnapshotAccount
  pub item : Option ItemHealth
  pub read : Option (Observation × FreshnessAssessment)

unfoldable pub entry_of :
    Calendar → Database → List Observation → ℕ → SnapshotAccount → Result Entry
entry_of c db run_observations at account = do
  item ← item_for db.items account
  if is_new account.reconciliation_state
      then ok (record { account = account; item = item; read = none })
      else (do
        found ← contribution c db run_observations at account item
        ok (record { account = account; item = item; read = some found }))

abbrev pub add_read : SnapshotAccount → Option (Observation × FreshnessAssessment) → Totals → Totals
add_read account none t = record t { unreconciled_count = t.unreconciled_count + 1 }
add_read account (some (o, a)) t = add_contribution account o a t

abbrev pub count_reauth : Option ItemHealth → Totals → Totals
count_reauth item t = record t { reauth_count = count_if (asks_owner item) t.reauth_count }

abbrev pub add_entry : Entry → Totals → Totals
add_entry e t = add_read e.account e.read (count_reauth e.item t)

abbrev pub add_entries : List Entry → Totals → Totals
add_entries [] t = t
add_entries (e ∷ es) t = add_entries es (add_entry e t)

add_account-eq :
    (c : Calendar) (db : Database) (obs : List Observation) (at : ℕ) (account : SnapshotAccount)
    (t : Totals)
    → add_account c db obs at account t ≡ (entry_of c db obs at account >>= λ e. ok (add_entry e t))
unfolding add_account entry_of
add_account-eq c db obs at account t = elim (Result-cases (item_for db.items account)) [
  | inl (x, e) ↦ rw e refl
  | inr (item, e) ↦ rw e (elim (Bool-cases (is_new account.reconciliation_state)) [
    | inl fresh_account ↦ rw fresh_account refl
    | inr old ↦ rw old (elim (Result-cases (contribution c db obs at account item)) [
      | inl (x, e') ↦ rw e' refl
      | inr (found, e') ↦ rw e' refl
    ])
  ])
]

-- The loop computes every account's entry, in order, and adds them up.
pub add_accounts-eq :
    (c : Calendar) (db : Database) (obs : List Observation) (at : ℕ)
    (accounts : List SnapshotAccount) (t : Totals)
    → add_accounts c db obs at accounts t
      ≡ (convert (entry_of c db obs at) accounts >>= λ es. ok (add_entries es t))
unfolding add_accounts convert
add_accounts-eq c db obs at [] t = refl
add_accounts-eq c db obs at (account ∷ rest) t =
    rw (add_account-eq c db obs at account t) (elim (Result-cases (entry_of c db obs at account)) [
      | inl (x, e) ↦ rw e refl
      | inr (entry, e) ↦
          rw (e, add_accounts-eq c db obs at rest (add_entry entry t))
            (elim (Result-cases (convert (entry_of c db obs at) rest)) [
              | inl (x, e') ↦ rw e' refl
              | inr (es, e') ↦ rw e' refl
            ])
    ])
