-- ===== src/Store/Observations.antt =====
-- networth/store/sqlite.py: `ObservationRepository`.
use networth.Prelude.{
  ℕ, ◌+◌, Bool, false, ◌&&◌, Option, none, some, List, [], ◌∷◌, ◌++◌, leb, ltb, ◌==◌, if◌then◌else◌,
  keep, any, String, str_eq,
}
use networth.Prelude.Result.{Result, ok, err, ◌>>=◌, observation_conflict}
use networth.Prelude.Sort.{sort, last}
use networth.Model.Figure.{new_figure}
use networth.Model.Observation.{ObservationDraft, Observation, new_observation}
use networth.Store.Tables.{AccountRow, from_row, convert, convert_optional, find}

-- `_observation_from_row`
unfoldable pub observation_from_row : Observation → Result Observation
observation_from_row o = from_row (do f ← new_figure o.figure; new_observation o)

-- The id that SQLite gives to the next row.
abbrev pub next_id : List Observation → ℕ
next_id [] = 1
next_id (o ∷ os) = let n = next_id os in if ltb o.id n then n else o.id + 1

-- The unique key (sync_run_id, account_id).
abbrev pub same_key : ObservationDraft → Observation → Bool
same_key d o = str_eq o.sync_run_id d.sync_run_id && (o.account_id == d.account_id)

-- `ObservationRepository.append`
unfoldable pub append_observation :
    List Observation → ObservationDraft → Result (Observation × List Observation)
append_observation rows d =
    let stored : Observation = record { draft = d; id = next_id rows } in
    if any (same_key d) rows then err observation_conflict else ok (stored, rows ++ stored ∷ [])

-- `ORDER BY o.account_id, o.id`
abbrev pub by_account : Observation → Observation → Bool
by_account a b =
    if a.account_id == b.account_id then leb a.id b.id else leb a.account_id b.account_id

-- `ORDER BY o.observed_at, o.id`
abbrev pub by_time : Observation → Observation → Bool
by_time a b =
    if a.observed_at == b.observed_at then leb a.id b.id else leb a.observed_at b.observed_at

-- `ObservationRepository.for_sync_run`
unfoldable pub for_sync_run : List Observation → String → Result (List Observation)
unfolding observation_from_row
for_sync_run rows run =
    convert observation_from_row (sort by_account (keep (λ o. str_eq o.sync_run_id run) rows))

-- `ObservationRepository.latest_for_account`
unfoldable pub latest_for_account : List Observation → ℕ → Result (Option Observation)
unfolding observation_from_row
latest_for_account rows account =
    convert_optional observation_from_row
      (last (sort by_time (keep (λ o. o.account_id == account) rows)))

abbrev pub lineage : Option AccountRow → Option ℕ
lineage none = none
lineage (some a) = some a.lineage_id

abbrev pub equals : ℕ → Option ℕ → Bool
equals l none = false
equals l (some k) = l == k

-- `a.lineage_id` of an account id, where the account exists.
abbrev pub lineage_of : List AccountRow → ℕ → Option ℕ
lineage_of accounts account = lineage (find (λ (a : AccountRow). a.id == account) accounts)

abbrev pub in_lineage : List AccountRow → Option ℕ → Observation → Bool
in_lineage accounts none o = false
in_lineage accounts (some l) o = equals l (lineage_of accounts o.account_id)

-- `ObservationRepository.history_for_lineage`
unfoldable pub history_for_lineage :
    List AccountRow → List Observation → ℕ → Result (List Observation)
unfolding observation_from_row
history_for_lineage accounts rows account =
    convert observation_from_row
      (sort by_time (keep (in_lineage accounts (lineage_of accounts account)) rows))
