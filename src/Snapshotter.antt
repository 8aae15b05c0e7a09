-- ===== src/Snapshotter.antt =====
-- networth/snapshotter.py: the annotated total of one successful run.
pub mod Draft
pub mod Entries
pub mod Sums
pub mod Honest
pub mod Age
use networth.Prelude.{
  ℕ, ◌+◌, Bool, true, false, not, ◌&&◌, ◌||◌, Option, none, some, String, str_eq, List, [], ◌∷◌,
  ◌++◌, ltb, ◌==◌, if◌then◌else◌, length, minimum,
}
use networth.Prelude.Int.{ℤ, pos, pos_part, ◌+ℤ◌, ◌-ℤ◌}
use networth.Prelude.Result.{Result, ok, err, ◌>>=◌, ◌>>◌, raise_if, snapshot_input, invalid_draft}
use networth.Calendar.Market.{Calendar}
use networth.Model.Texts.{is_nonempty}
use networth.Model.Item.{ItemHealth, owner_actionable, is_some}
use networth.Model.Figure.{
  SnapshotAge, known, unknown, static_only, new_age, SourcedFigure, figure_of,
}
use networth.Model.Observation.{Observation}
use networth.Model.Freshness.{
  FreshnessState, fresh, stale, frozen, static, is_static, is_frozen, is_unknown, FreshnessPolicy,
  manual_static, FreshnessAssessment,
}
use networth.Model.Freshness
use networth.Model.Account.{SnapshotAccount, is_new}
use networth.Model.Snapshot.{
  SnapshotCounts, new_counts, SnapshotDraft, new_snapshot_draft, Snapshot,
}
use networth.Manual.{Revision, from_observations, current}
use networth.Staleness.{assess, is_manual_static}
use networth.Store.Tables.{Database, find}
use networth.Store.Items.{get_item}
use networth.Store.Accounts.{for_snapshot}
use networth.Store.Observations.{for_sync_run, history_for_lineage}
use networth.Store.Snapshots.{append_snapshot}

-- The local variables of the loop of `run`.
pub record Totals : Type 0 where
  pub assets : ℤ
  pub liabilities : ℤ
  pub stale_count : ℕ
  pub unknown_count : ℕ
  pub static_count : ℕ
  pub reauth_count : ℕ
  pub unreconciled_count : ℕ
  pub carried_forward : Bool
  pub known_basis_clocks : List ℕ

abbrev pub no_totals : Totals
no_totals = record {
  assets = pos 0;
  liabilities = pos 0;
  stale_count = 0;
  unknown_count = 0;
  static_count = 0;
  reauth_count = 0;
  unreconciled_count = 0;
  carried_forward = false;
  known_basis_clocks = [];
}

abbrev found_item : Option ItemHealth → Result (Option ItemHealth)
found_item none = err snapshot_input
found_item (some i) = ok (some i)

abbrev lookup_item : List ItemHealth → Option ℕ → Result (Option ItemHealth)
lookup_item items none = ok none
lookup_item items (some item_id) = get_item items item_id >>= found_item

-- `_item_for`
unfoldable pub item_for : List ItemHealth → SnapshotAccount → Result (Option ItemHealth)
item_for items account = lookup_item items account.item_id

-- The value of a key in a dict that was built from a list: the last entry wins.
unfoldable pub find_last : (Observation → Bool) → List Observation → Option Observation
find_last p [] = none
find_last p (o ∷ os) = elim (find_last p os) [
  | some o' ↦ some o'
  | none ↦ if p o then some o else none
]

abbrev pub or_input_error : Option Observation → Result Observation
or_input_error none = err snapshot_input
or_input_error (some o) = ok o

abbrev pub revision_observation : List Observation → Option Revision → Result Observation
revision_observation history none = err snapshot_input
revision_observation history (some r) = or_input_error (find_last (λ o. o.id == r.sequence) history)

-- `_observation_for`
unfoldable pub observation_for :
    Database → List Observation → ℕ → SnapshotAccount → Result Observation
unfolding find_last
observation_for db run_observations at account =
    if is_manual_static account.freshness_policy
    then (do
      history ← history_for_lineage db.accounts db.observations account.id
      log ← from_observations history
      revision_observation history (current log at))
    else or_input_error (find_last (λ o. o.account_id == account.id) run_observations)

abbrev pub is_stale_or_frozen : FreshnessState → Bool
is_stale_or_frozen stale = true
is_stale_or_frozen frozen = true
is_stale_or_frozen _ = false

abbrev pub count_if : Bool → ℕ → ℕ
count_if b n = if b then n + 1 else n

-- `item is not None and item.status.owner_actionable`
unfoldable pub asks_owner : Option ItemHealth → Bool
unfolding owner_actionable
asks_owner none = false
asks_owner (some i) = owner_actionable i.status

abbrev pub basis_clock : FreshnessState → Option ℕ → List ℕ
basis_clock s none = []
basis_clock s (some clock) = if is_static s then [] else clock ∷ []

-- The part of the loop's body that counts one assessed observation.
unfoldable pub add_contribution :
    SnapshotAccount → Observation → FreshnessAssessment → Totals → Totals
add_contribution account o a t =
    let positive = ltb 0 (pos_part account.sign) in
    record t {
      stale_count = count_if (is_stale_or_frozen a.state) t.stale_count;
      unknown_count = count_if (is_unknown a.state) t.unknown_count;
      static_count = count_if (is_static a.state) t.static_count;
      known_basis_clocks = t.known_basis_clocks ++ basis_clock a.state a.source_as_of;
      carried_forward = t.carried_forward || o.is_carried_forward;
      assets = if positive then t.assets +ℤ o.figure.value_minor else t.assets;
      liabilities = if positive then t.liabilities else t.liabilities +ℤ o.figure.value_minor;
    }

-- One account's observation, its currency checked, and its assessment.
unfoldable pub contribution :
    Calendar
    → Database
    → List Observation
    → ℕ
    → SnapshotAccount
    → Option ItemHealth
    → Result (Observation × FreshnessAssessment)
contribution c db run_observations at account item = do
  o ← observation_for db run_observations at account
  raise_if (not (str_eq o.figure.currency account.currency) || not (str_eq account.currency "USD"))
      snapshot_input
  a ← assess c o.draft account.freshness_policy item at
  ok (o, a)

-- One round of the loop of `run`.
unfoldable pub add_account :
    Calendar → Database → List Observation → ℕ → SnapshotAccount → Totals → Result Totals
unfolding asks_owner
add_account c db run_observations at account t = do
  item ← item_for db.items account
  let t' : Totals = record t { reauth_count = count_if (asks_owner item) t.reauth_count }
  if is_new account.reconciliation_state
      then ok (record t' { unreconciled_count = t'.unreconciled_count + 1 })
      else (do
        (o, a) ← contribution c db run_observations at account item
        ok (add_contribution account o a t'))

unfoldable pub add_accounts :
    Calendar → Database → List Observation → ℕ → List SnapshotAccount → Totals → Result Totals
unfolding add_account
add_accounts c db run_observations at [] t = ok t
add_accounts c db run_observations at (account ∷ rest) t = do
  t' ← add_account c db run_observations at account t
  add_accounts c db run_observations at rest t'

-- The tagged age of the totals, from the number of UNKNOWN contributors and the known clocks.
unfoldable pub age_from : ℕ → List ℕ → SnapshotAge
age_from unknown_count clocks =
    let oldest_known = minimum clocks in
    if ltb 0 unknown_count
    then record { state = unknown; as_of = none; oldest_known_source_as_of = oldest_known }
    else if ltb 0 (length clocks)
    then record { state = known; as_of = oldest_known; oldest_known_source_as_of = oldest_known }
    else record { state = static_only; as_of = none; oldest_known_source_as_of = none }

abbrev pub age_of : Totals → SnapshotAge
age_of t = age_from t.unknown_count t.known_basis_clocks

abbrev pub counts_of : ℕ → Totals → SnapshotCounts
counts_of account_count t = record {
  account_count = account_count;
  stale_account_count = t.stale_count;
  unknown_freshness_account_count = t.unknown_count;
  static_account_count = t.static_count;
  reauth_account_count = t.reauth_count;
  unreconciled_account_count = t.unreconciled_count;
}

-- The end of `run`: the age, the counts and the draft, each through its constructor's checks.
unfoldable pub draft_of : String → ℕ → ℕ → Totals → Result SnapshotDraft
unfolding age_from
draft_of run at account_count t = do
  age ← new_age (age_of t)
  counts ← new_counts (counts_of account_count t)
  net_worth ← figure_of age (t.assets -ℤ t.liabilities)
  assets ← figure_of age t.assets
  liabilities ← figure_of age t.liabilities
  new_snapshot_draft (record {
    sync_run_id = run;
    taken_at = at;
    net_worth = net_worth;
    assets = assets;
    liabilities = liabilities;
    counts = counts;
    is_complete = not t.carried_forward && (t.stale_count == 0) && (t.unreconciled_count == 0);
    age = age;
  })

-- `Snapshotter.run` up to the append.
unfoldable pub compute : Calendar → Database → String → ℕ → Result SnapshotDraft
compute c db run at = do
  raise_if (not (is_nonempty run)) invalid_draft
  accounts ← for_snapshot db.accounts
  run_observations ← for_sync_run db.observations run
  t ← add_accounts c db run_observations at accounts no_totals
  draft_of run at (length accounts) t

-- `Snapshotter.run`
unfoldable pub run_snapshot : Calendar → Database → String → ℕ → Result (Snapshot × Database)
unfolding compute
run_snapshot c db run at = do d ← compute c db run at; append_snapshot db d
