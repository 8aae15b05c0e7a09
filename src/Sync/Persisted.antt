-- ===== src/Sync/Persisted.antt =====
-- networth/sync.py: a collected plan is persisted whole under a run id that is new.
use mathlib.Core.List.Perm
use networth.Prelude.{false, ◌≡◌, ◌≢◌, String, str_eq, List, [], ◌∷◌, All, any}
use networth.Model.Observation.{ObservationDraft, Observation}
use networth.Model.Account.{LinkedAccount}
use networth.Store.Observations.{same_key}
use networth.Sync.Settled.{Settled}

-- Two accounts have different ids.
abbrev pub IsApart : LinkedAccount → LinkedAccount → Type 0
IsApart s t = s.id ≢ t.id

-- No draft is for the account that another one is for.
abbrev AreApart : List ObservationDraft → Type 0
AreApart [] = Unit
AreApart (d ∷ ds) = All (λ (e : ObservationDraft). d.account_id ≢ e.account_id) ds × AreApart ds

abbrev pub drafts_of : List Observation → List ObservationDraft
drafts_of [] = []
drafts_of (o ∷ os) = o.draft ∷ drafts_of os

-- The draft's key is free in the table.
abbrev IsFree : List Observation → ObservationDraft → Type 0
IsFree rows d = any (same_key d) rows ≡ false

-- No stored observation is of the run.
abbrev pub IsNewRun : List Observation → String → Type 0
IsNewRun rows run = any (λ (o : Observation). str_eq o.sync_run_id run) rows ≡ false

pub IsApart-prop : (a b : LinkedAccount) → IsProp (IsApart a b)
IsApart-prop a b = hlevel
