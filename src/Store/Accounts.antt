-- ===== src/Store/Accounts.antt =====
-- networth/store/sqlite.py: `AccountRepository`.
use networth.Prelude.{
  ℕ, Bool, true, false, not, ◌&&◌, ◌||◌, Option, some, List, [], ◌∷◌, leb, ◌==◌, if◌then◌else◌,
  keep, String,
}
use networth.Prelude.Result.{Result, ok, err, ◌>>=◌, stored_data}
use networth.Prelude.Sort.{sort}
use networth.Model.Item.{is_some}
use networth.Model.Account.{
  LinkedAccount, new_linked_account, SnapshotAccount, new_snapshot_account, is_archived,
}
use networth.Model.Freshness.{requires_item}
use networth.Store.Tables.{AccountRow, from_row, convert}
use networth.Store.Items.{no_later}

-- The WHERE clause of `syncable`; the two synced policies are those that require an Item.
unfoldable pub is_syncable : AccountRow → Bool
unfolding requires_item
is_syncable a =
    is_some a.item_id
    && is_some a.plaid_account_id
    && requires_item a.freshness_policy
    && not (is_archived a.reconciliation_state)
    && not (is_some a.archived_at)

abbrev pub linked_of : AccountRow → Option ℕ → Option String → Result LinkedAccount
linked_of a (some item) (some plaid) = new_linked_account (record {
  id = a.id;
  item_id = item;
  plaid_account_id = plaid;
  currency = a.currency;
  freshness_policy = a.freshness_policy;
  reconciliation_state = a.reconciliation_state;
})
linked_of a _ _ = err stored_data

-- `_linked_account_from_row`
unfoldable pub linked_account_from_row : AccountRow → Result LinkedAccount
linked_account_from_row a = from_row (linked_of a a.item_id a.plaid_account_id)

-- `ORDER BY a.item_id, a.id`
abbrev pub by_item : LinkedAccount → LinkedAccount → Bool
by_item a b = if a.item_id == b.item_id then leb a.id b.id else leb a.item_id b.item_id

-- `AccountRepository.syncable`
unfoldable pub syncable : List AccountRow → Result (List LinkedAccount)
unfolding is_syncable linked_account_from_row
syncable rows = do
  found ← convert linked_account_from_row (keep is_syncable rows)
  ok (sort by_item found)

-- The WHERE clause of `_active`.
unfoldable pub is_active : Bool → AccountRow → Bool
is_active included_only a =
    (not included_only || a.include_in_net_worth)
    && not (is_archived a.reconciliation_state)
    && not (is_some a.archived_at)
    && not (is_some a.superseded_by_account_id)
    && not (is_some a.superseded_at)

-- `_snapshot_account_from_row`
unfoldable pub snapshot_account_from_row : AccountRow → Result SnapshotAccount
snapshot_account_from_row a = from_row (
    new_snapshot_account (record {
      id = a.id;
      item_id = a.item_id;
      currency = a.currency;
      sign = a.sign;
      freshness_policy = a.freshness_policy;
      reconciliation_state = a.reconciliation_state;
    }))

-- `_active`, `for_snapshot`, `for_alerts`
unfoldable pub active : Bool → List AccountRow → Result (List SnapshotAccount)
unfolding is_active snapshot_account_from_row
active included_only rows = convert snapshot_account_from_row (keep (is_active included_only) rows)

unfoldable pub for_snapshot : List AccountRow → Result (List SnapshotAccount)
unfolding active
for_snapshot rows = active true rows

unfoldable pub for_alerts : List AccountRow → Result (List SnapshotAccount)
unfolding active
for_alerts rows = active false rows

-- `AccountRepository.record_fetch`
unfoldable pub record_fetch : ℕ → ℕ → Option ℕ → List AccountRow → List AccountRow
record_fetch account_id fetched source [] = []
record_fetch account_id fetched source (a ∷ rows) =
    (if (a.id == account_id) && no_later fetched a.last_fetch_at
      then record a { last_fetch_at = some fetched; last_source_as_of = source }
      else a)
    ∷ record_fetch account_id fetched source rows
