-- ===== src/Quotes/Carried.antt =====
-- networth/quote_cycle.py: `_carry_linked` repeats the last value of every linked account, clocks and all.
use mathlib.Core.List.{append_assoc, append-nil}
use networth.Prelude.{
  ℕ, ◌≡◌, ◌≤◌, sym, subst, ap, ◌∙◌, inl, inr, true, false, Bool-cases, Option, none, some, String,
  List, [], ◌∷◌, ◌++◌, ltb, ◌||◌, arith, keep, any,
}
use networth.Prelude.Result.{
  ok, ok-injective, >>=-eq-ok, raise_if-eq-ok, raise_if-false, snapshot_input,
}
use networth.Prelude.Sort.{last}
use networth.Model.Observation.{ObservationDraft, Observation, new_observation_draft}
use networth.Model.Account.{SnapshotAccount}
use networth.Store.Tables.{Database}
use networth.Store.Accounts.{for_snapshot}
use networth.Store.Observations.{latest_for_account, append_observation, same_key}
use networth.Scheduling.{is_after_clock}
use networth.Quotes.Cycle.{
  is_carried, carried_draft, carry_previous, carry_one, carry_each, carry_linked,
}
use networth.Store.Latest.{AllOfRun, append_observation-eq, latest-base}

module _ (run : String) (at : ℕ) where
  -- The row repeats the account's last observation in `rows`, with its figure, its source and its clocks,
  -- none of which is in the future, and says that it is carried forward.
  pub record IsCarried (rows : List Observation) (a : SnapshotAccount) (o : Observation)
      : Type 0 where
    pub previous : Observation
    pub latest : latest_for_account rows a.id ≡ ok (some previous)
    pub not_future : (previous.observed_at ≤ at) × (previous.fetched_at ≤ at)
    pub clock_not_future : is_after_clock at previous.figure.as_of ≡ false
    pub repeated :
        o.draft
        ≡ record previous.draft { sync_run_id = run; observed_at = at; is_carried_forward = true }

  abbrev pub AllCarried : List Observation → List SnapshotAccount → List Observation → Type 0
  AllCarried rows [] [] = Unit
  AllCarried rows [] (_ ∷ _) = ⊥
  AllCarried rows (_ ∷ _) [] = ⊥
  AllCarried rows (a ∷ accounts) (o ∷ os) = IsCarried rows a o × AllCarried rows accounts os

  carried_draft-eq :
      (previous : Observation) (d : ObservationDraft)
      → carried_draft run at previous ≡ ok d
      → record previous.draft { sync_run_id = run; observed_at = at; is_carried_forward = true } ≡ d
  unfolding new_observation_draft
  carried_draft-eq previous d h = ground arith

  -- One linked account: its last observation is appended again.
  carry_previous-IsCarried :
      (db db' : Database) (base cs : List Observation) (a : SnapshotAccount)
      (last : Option Observation)
      → db.observations ≡ base ++ cs
      → AllOfRun run cs
      → latest_for_account db.observations a.id ≡ ok last
      → carry_previous run at db last ≡ ok db'
      → (o : Observation) × (db' ≡ record db { observations = db.observations ++ o ∷ [] })
        × IsCarried base a o
        × (o.sync_run_id ≡ run)
  carry_previous-IsCarried db db' base cs a none split all read h = cc
  carry_previous-IsCarried db db' base cs a (some previous) split all read h =
      let early =
        raise_if-false
          (ltb at previous.observed_at
            || ltb at previous.fetched_at
            || is_after_clock at previous.figure.as_of)
          snapshot_input _ h in
      let h1 =
        raise_if-eq-ok
          (ltb at previous.observed_at
            || ltb at previous.fetched_at
            || is_after_clock at previous.figure.as_of)
          snapshot_input _ h in
      let (d, made, h2) = >>=-eq-ok (carried_draft run at previous) _ h1 in
      let ((o, rows), appended, h3) = >>=-eq-ok (append_observation db.observations d) _ h2 in
      let (free, draft, rows_eq) = append_observation-eq db.observations d o rows appended in
      let copy = carried_draft-eq previous d made in
      let run_eq : run ≡ d.sync_run_id = ap (λ (x : ObservationDraft). x.sync_run_id) copy in
      let account_eq : d.account_id ≡ previous.account_id =
        sym (ap (λ (x : ObservationDraft). x.account_id) copy) in
      (
        o,
        sym (ok-injective h3)
            ∙ ap (λ (x : List Observation). record db { observations = x }) rows_eq,
        record {
          previous = previous;
          latest =
              latest-base base cs a.id previous d account_eq (subst (λ r. AllOfRun r cs) run_eq all)
                (subst (λ (r : List Observation). any (same_key d) r ≡ false) split free)
                (subst (λ (r : List Observation). latest_for_account r a.id ≡ ok (some previous))
                  split read);
          not_future = (ground arith, ground arith);
          clock_not_future = ground arith;
          repeated = draft ∙ sym copy;
        },
        ap (λ (x : ObservationDraft). x.sync_run_id) draft ∙ sym run_eq,
      )

  AllOfRun-append_one :
      (cs : List Observation) (o : Observation)
      → AllOfRun run cs
      → o.sync_run_id ≡ run
      → AllOfRun run (cs ++ o ∷ [])
  AllOfRun-append_one [] o all h = (h, tt)
  AllOfRun-append_one (c ∷ cs) o (eq, all) h = (eq, AllOfRun-append_one cs o all h)

  carry_each-AllCarried :
      (accounts : List SnapshotAccount) (db db' : Database) (base cs : List Observation)
      → db.observations ≡ base ++ cs
      → AllOfRun run cs
      → carry_each run at db accounts ≡ ok db'
      → (os : List Observation) × (db' ≡ record db { observations = db.observations ++ os })
        × AllCarried base (keep is_carried accounts) os
  unfolding carry_each carry_one
  carry_each-AllCarried [] db db' base cs split all h = (
    [],
    sym (ok-injective h)
        ∙ ap (λ (x : List Observation). record db { observations = x })
            (sym (append-nil db.observations)),
    tt,
  )
  carry_each-AllCarried (a ∷ accounts) db db' base cs split all h =
      elim (Bool-cases (is_carried a)) [
        | inl e ↦
            let (db1, carried, later) = >>=-eq-ok (carry_one run at db a) _ h in
            let (last, read, h1) =
              >>=-eq-ok (latest_for_account db.observations a.id) _ (rw e at carried) in
            let (o, db1_eq, repeats, named) =
              carry_previous-IsCarried db db1 base cs a last split all read h1 in
            let split1 : db1.observations ≡ base ++ (cs ++ o ∷ []) =
              ap (λ (x : Database). x.observations) db1_eq
              ∙ ap (λ (x : List Observation). x ++ o ∷ []) split
              ∙ append_assoc base cs (o ∷ []) in
            let (os, db_eq, rest) =
              carry_each-AllCarried accounts db1 db' base (cs ++ o ∷ []) split1
                (AllOfRun-append_one cs o all named) later in
            rw e (
              o ∷ os,
              db_eq
                  ∙ ap (λ (x : Database). record x { observations = x.observations ++ os }) db1_eq
                  ∙ ap (λ (x : List Observation). record db { observations = x })
                      (append_assoc db.observations (o ∷ []) os),
              (repeats, rest),
            )
        | inr e ↦
            let (db1, same, later) = >>=-eq-ok (carry_one run at db a) _ h in
            let db1_eq : db ≡ db1 = ok-injective (rw e at same) in
            rw e (
              carry_each-AllCarried accounts db db' base cs split all (
                subst (λ (x : Database). carry_each run at x accounts ≡ ok db') (sym db1_eq) later))
      ]

-- Carrying the linked values into a run that returns appends one observation for each account that is
-- synced and not NEW, in order, and changes nothing else. Each repeats the account's last observation
-- from before, with its figure, its source and its clocks, none of which is in the future, and says
-- that it is carried forward.
pub carry_linked-AllCarried :
    (run : String) (at : ℕ) (db db' : Database)
    → carry_linked run at db ≡ ok db'
    → (accounts : List SnapshotAccount) × (os : List Observation) × (for_snapshot db.accounts
        ≡ ok accounts)
      × (db' ≡ record db { observations = db.observations ++ os })
      × AllCarried run at db.observations (keep is_carried accounts) os
unfolding carry_linked
carry_linked-AllCarried run at db db' h =
    let (accounts, read, h1) = >>=-eq-ok (for_snapshot db.accounts) _ h in
    let (os, eq, all) =
      carry_each-AllCarried run at accounts db db' db.observations []
        (sym (append-nil db.observations)) tt h1 in
    (accounts, os, read, eq, all)
