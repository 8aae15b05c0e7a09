-- ===== src/Store/Items.antt =====
-- networth/store/sqlite.py: `ItemRepository`.
use networth.Prelude.{
  ℕ, Bool, true, false, not, ◌&&◌, ◌||◌, Option, none, some, List, [], ◌∷◌, leb, ltb, ◌==◌,
  if◌then◌else◌, keep,
}
use networth.Prelude.Result.{Result, ok, err, ◌>>=◌, item_not_found}
use networth.Model.Item.{
  ItemState, healthy, degraded, needs_reauth, revoked, ItemHealth, new_item_health,
  ItemHealthUpdate,
}
use networth.Store.Tables.{from_row, convert, convert_optional, find}

-- `_item_from_row`
unfoldable pub item_from_row : ItemHealth → Result ItemHealth
item_from_row r = from_row (new_item_health r)

-- `ItemRepository.get`
unfoldable pub get_item : List ItemHealth → ℕ → Result (Option ItemHealth)
unfolding item_from_row
get_item rows item_id = convert_optional item_from_row (find (λ r. r.id == item_id) rows)

-- `ItemRepository.all`
unfoldable pub all_items : List ItemHealth → Result (List ItemHealth)
unfolding item_from_row convert
all_items rows = convert item_from_row rows

-- `t IS NULL OR t <= cutoff`
abbrev pub no_later : ℕ → Option ℕ → Bool
no_later cutoff none = true
no_later cutoff (some t) = leb t cutoff

-- `ItemRepository.due_at_or_before`
unfoldable pub due_at_or_before : List ItemHealth → ℕ → Result (List ItemHealth)
unfolding item_from_row convert
due_at_or_before rows cutoff =
    convert item_from_row (keep (λ r. no_later cutoff r.last_polled_at) rows)

abbrev pub same_state : ItemState → ItemState → Bool
same_state healthy healthy = true
same_state degraded degraded = true
same_state needs_reauth needs_reauth = true
same_state revoked revoked = true
same_state _ _ = false

-- The SET clause that depends on the polled status.
abbrev pub apply_status : Option ItemState → ItemHealthUpdate → ItemHealth → ItemHealth
apply_status none u r = r
apply_status (some s) u r = record r {
  status = s;
  status_since = if same_state r.status s then r.status_since else u.polled_at;
  last_error_code = u.error_code;
  last_error_detail = u.error_detail;
}

-- The row that the UPDATE of `record_poll` writes.
unfoldable pub polled_row : ItemHealthUpdate → ItemHealth → ItemHealth
polled_row u r =
    let s = apply_status u.status u r in
    record s {
      last_polled_at = some u.polled_at;
      investments_last_successful_update =
          if u.investments_status_observed
          then u.investments_last_successful_update
          else s.investments_last_successful_update;
    }

-- `WHERE id = ? AND (last_health_poll_at IS NULL OR last_health_poll_at <= ?)`
abbrev pub is_target : ℕ → ItemHealthUpdate → ItemHealth → Bool
is_target item_id u r = (r.id == item_id) && no_later u.polled_at r.last_polled_at

abbrev pub update_rows : ℕ → ItemHealthUpdate → List ItemHealth → List ItemHealth
update_rows item_id u [] = []
update_rows item_id u (r ∷ rs) =
    (if is_target item_id u r then polled_row u r else r) ∷ update_rows item_id u rs

-- The poll is older than the stored state or the stored poll.
abbrev pub is_outdated : ItemHealthUpdate → ItemHealth → Bool
is_outdated u r = ltb u.polled_at r.status_since || not (no_later u.polled_at r.last_polled_at)

abbrev pub or_missing : Option ItemHealth → Result ItemHealth
or_missing none = err item_not_found
or_missing (some i) = ok i

-- `ItemRepository.record_poll`: the Item as it now stands, and the rows.
unfoldable pub record_poll :
    List ItemHealth → ℕ → ItemHealthUpdate → Result (ItemHealth × List ItemHealth)
unfolding get_item polled_row
record_poll rows item_id u = do
  found ← get_item rows item_id
  existing ← or_missing found
  if is_outdated u existing then ok (existing, rows) else do
    let rows' = update_rows item_id u rows
    found' ← get_item rows' item_id
    current ← or_missing found'
    ok (current, rows')
