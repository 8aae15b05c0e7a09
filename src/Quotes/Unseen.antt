-- ===== src/Quotes/Unseen.antt =====
-- networth/quote_cycle.py: a quote cycle is no evidence for the schedule of full syncs.
use mathlib.Core.List.{append-nil}
use text.Mathlib.TextPositions.{eq_refl}
use networth.Prelude.{
  ℕ, ◌≡◌, ◌∙◌, refl, sym, ap, inl, inr, Bool, true, false, not, Bool-cases, Option, none, some,
  String, str_eq, List, [], ◌∷◌, ◌++◌, any, ltb,
}
use networth.Prelude.Result.{
  Result, ok, err, ok-injective, >>=-eq-ok, raise_if-eq-ok, Result-cases, raised_outside,
  no_transaction, manual_quote_input, cycle_alert_input, snapshot_conflict,
}
use networth.Calendar.Market.{Calendar}
use networth.Model.Snapshot.{SnapshotDraft, Snapshot}
use networth.Model.Observation.{ObservationDraft}
use networth.Alerts.{Evaluation}
use networth.Alerts.OnlyAlerts.{evaluate-OnlyAlerts}
use networth.Store.Tables.{other_kind, SyncRun, Database}
use networth.Store.Items.{all_items}
use networth.Store.Accounts.{for_alerts}
use networth.Store.Observations.{append_observation}
use networth.Store.Snapshots.{
  append_snapshot, append_new, require_successful_run, snapshot_for_run, same_draft,
}
use networth.CycleAlerts.{ManualAsset, in_future, cycle_signals, cycle_evaluate}
use networth.Snapshotter.{compute, run_snapshot}
use networth.Scheduling.{successes}
use networth.Dispatch.{Locks, write_retried, finish_runs, DispatchResult}
use networth.Dispatch.Committed.{
  successes-append, finish_other, finish_runs-append, write_retried-ok,
}
use networth.Quotes.Holdings.{Quote}
use networth.Quotes.Worker.{
  ManualQuotePlan, manual_inputs, same_inputs, collect_quotes, persist_quotes, persist_quotes_each,
}
use networth.Quotes.Cycle.{
  carry_linked, begin_quotes, finish_quotes, quotes_collected, quotes_begun, quotes_admitted,
  run_quotes,
}
use networth.Quotes.Carried.{carry_linked-AllCarried}

-- Alerts, snapshots, prices and carried values leave the runs alone.
cycle_evaluate-runs :
    (c : Calendar) (assets : List ManualAsset) (in_transaction : Bool) (db : Database) (at : ℕ)
    (e : Evaluation)
    → cycle_evaluate c assets in_transaction db at ≡ ok e
    → e.database.runs ≡ db.runs
unfolding cycle_evaluate
cycle_evaluate-runs c assets in_transaction db at e h =
    let h1 = raise_if-eq-ok (not in_transaction) no_transaction _ h in
    let (items, _, h2) = >>=-eq-ok (all_items db.items) _ h1 in
    let h3 = raise_if-eq-ok (any (in_future at) items) cycle_alert_input _ h2 in
    let (accounts, _, h4) = >>=-eq-ok (for_alerts db.accounts) _ h3 in
    let (signals, _, h5) = >>=-eq-ok (cycle_signals c assets db items at accounts) _ h4 in
    sym (ap (λ (d : Database). d.runs) (evaluate-OnlyAlerts at items signals db e h5))

append_new-runs :
    (db : Database) (d : SnapshotDraft) (existing : Option Snapshot) (s : Snapshot) (db' : Database)
    → append_new db d existing ≡ ok (s, db')
    → db'.runs ≡ db.runs
append_new-runs db d none s db' h =
    ap (λ (r : Snapshot × Database). r.1.runs) (sym (ok-injective h))
append_new-runs db d (some existing) s db' h = elim (Bool-cases (same_draft existing.draft d)) [
  | inl e ↦ ap (λ (r : Snapshot × Database). r.1.runs) (sym (ok-injective (rw e at h)))
  | inr e ↦ let bad : err snapshot_conflict ≡ ok (s, db') = (rw e at h) in cc
]

run_snapshot-runs :
    (c : Calendar) (db : Database) (run : String) (at : ℕ) (s : Snapshot) (db' : Database)
    → run_snapshot c db run at ≡ ok (s, db')
    → db'.runs ≡ db.runs
unfolding run_snapshot append_snapshot
run_snapshot-runs c db run at s db' h =
    let (d, _, h1) = >>=-eq-ok (compute c db run at) _ h in
    let (_, _, h2) = >>=-eq-ok (require_successful_run db.runs d.sync_run_id) _ h1 in
    let (existing, _, h3) = >>=-eq-ok (snapshot_for_run db.snapshots d.sync_run_id) _ h2 in
    append_new-runs db d existing s db' h3

persist_quotes_each-runs :
    (ds : List ObservationDraft) (db db' : Database)
    → persist_quotes_each db ds ≡ ok db'
    → db'.runs ≡ db.runs
unfolding persist_quotes_each
persist_quotes_each-runs [] db db' h = ap (λ (d : Database). d.runs) (sym (ok-injective h))
persist_quotes_each-runs (d ∷ ds) db db' h =
    let ((o, rows), _, h1) = >>=-eq-ok (append_observation db.observations d) _ h in
    persist_quotes_each-runs ds _ db' h1

persist_quotes-runs :
    (assets : List ManualAsset) (db : Database) (in_transaction : Bool) (plan : ManualQuotePlan)
    (at n : ℕ) (db' : Database)
    → persist_quotes assets db in_transaction plan at ≡ ok (n, db')
    → db'.runs ≡ db.runs
unfolding persist_quotes
persist_quotes-runs assets db in_transaction plan at n db' h =
    let h1 = raise_if-eq-ok (not in_transaction) no_transaction _ h in
    let h2 =
      raise_if-eq-ok (any (λ (d : ObservationDraft). ltb at d.observed_at) plan.observations)
        manual_quote_input _ h1 in
    let (inputs, _, h3) = >>=-eq-ok (manual_inputs assets db at) _ h2 in
    let h4 = raise_if-eq-ok (not (same_inputs inputs plan.inputs)) manual_quote_input _ h3 in
    let (db1, made, last) = >>=-eq-ok (persist_quotes_each db plan.observations) _ h4 in
    ap (λ (r : ℕ × Database). r.1.runs) (sym (ok-injective last))
    ∙ persist_quotes_each-runs plan.observations db db1 made

carry_linked-runs :
    (run : String) (at : ℕ) (db db' : Database)
    → carry_linked run at db ≡ ok db'
    → db'.runs ≡ db.runs
carry_linked-runs run at db db' h =
    let (_, _, _, eq, _) = carry_linked-AllCarried run at db db' h in
    ap (λ (d : Database). d.runs) eq

module _ (c : Calendar) (get_quotes : List String → Result (String → Option Quote))
    (assets : List ManualAsset) (run : String) (started fetched finished : ℕ) where
  abbrev begun : SyncRun
  begun = record {
    id = run;
    kind = other_kind;
    started_at = started;
    finished_at = none;
    succeeded = none;
  }

  finish_quotes-runs :
      (plan : ManualQuotePlan) (db db' : Database)
      → finish_quotes c get_quotes assets run plan finished db ≡ ok db'
      → db'.runs ≡ finish_runs run finished true db.runs
  unfolding finish_quotes
  finish_quotes-runs plan db db' h =
      let ((n, priced), persisted, h1) =
        >>=-eq-ok (persist_quotes assets db true plan finished) _ h in
      let (linked, carried, h2) = >>=-eq-ok (carry_linked run finished priced) _ h1 in
      let ((s, built), snapped, h3) =
        >>=-eq-ok
          (run_snapshot c (record linked { runs = finish_runs run finished true linked.runs }) run
            finished)
          _ h2 in
      let (e, evaluated, last) = >>=-eq-ok (cycle_evaluate c assets true built finished) _ h3 in
      ap (λ (d : Database). d.runs) (sym (ok-injective last))
      ∙ cycle_evaluate-runs c assets true built finished e evaluated
      ∙ run_snapshot-runs c _ run finished s built snapped
      ∙ ap (finish_runs run finished true) (
          carry_linked-runs run finished priced linked carried
          ∙ persist_quotes-runs assets db true plan finished n priced persisted)

  successes-begun : (runs : List SyncRun) → successes (runs ++ begun ∷ []) ≡ successes runs
  unfolding successes
  successes-begun runs = successes-append runs (begun ∷ []) ∙ append-nil (successes runs)

  successes_after_finish :
      (runs : List SyncRun)
      → any (λ (r : SyncRun). str_eq r.id run) runs ≡ false
      → successes (finish_runs run finished true (runs ++ begun ∷ [])) ≡ successes runs
  unfolding successes
  successes_after_finish runs new =
      rw
        (
          finish_runs-append run finished true runs (begun ∷ []),
          finish_other run finished true runs new,
          eq_refl run,
        )
        (successes-append runs _ ∙ append-nil (successes runs))

  abbrev IsUnseen : Database → Result DispatchResult × Database → Type 0
  IsUnseen db (_, db') = successes db'.runs ≡ successes db.runs

  successes_collected :
      (locks : Locks) (runs : List SyncRun) (db db' : Database)
      → any (λ (r : SyncRun). str_eq r.id run) runs ≡ false
      → db.runs ≡ runs ++ begun ∷ []
      → quotes_collected c get_quotes assets run locks started fetched finished db ≡ ok db'
      → successes db'.runs ≡ successes runs
  unfolding quotes_collected
  successes_collected locks runs db db' new eq h =
      let (plan, _, h1) =
        >>=-eq-ok (collect_quotes get_quotes assets db false run started fetched) _ h in
      let h2 = raise_if-eq-ok (ltb finished started) (raised_outside "ValueError") _ h1 in
      let h3 =
        write_retried-ok locks (finish_quotes c get_quotes assets run plan finished db) db' h2 in
      ap successes (finish_quotes-runs plan db db' h3 ∙ ap (finish_runs run finished true) eq)
      ∙ successes_after_finish runs new

  quotes_begun-IsUnseen :
      (locks : Locks) (db db1 : Database)
      → begin_quotes run started db ≡ ok db1
      → IsUnseen db
          (quotes_begun c get_quotes assets run locks started fetched finished db (ok db1))
  unfolding begin_quotes
  quotes_begun-IsUnseen locks db db1 h =
      elim (Bool-cases (any (λ (r : SyncRun). str_eq r.id run) db.runs)) [
        | inl e ↦ let bad : err (raised_outside "IntegrityError") ≡ ok db1 = (rw e at h) in cc
        | inr new ↦
            let rows : db1.runs ≡ db.runs ++ begun ∷ [] =
              ap (λ (d : Database). d.runs) (sym (ok-injective (rw new at h))) in
            elim (Result-cases
              (quotes_collected c get_quotes assets run locks started fetched finished db1)) [
                | inl (e, q) ↦ rw q (ap successes rows ∙ successes-begun db.runs)
                | inr (db2, q) ↦ rw q (successes_collected locks db.runs db1 db2 new rows q)
              ]
      ]

  quotes_admitted-IsUnseen :
      (begin_locks finish_locks : Locks) (db : Database) (due : Result Bool)
      → IsUnseen db (
          quotes_admitted c get_quotes assets run begin_locks finish_locks started fetched finished
            db due)
  quotes_admitted-IsUnseen begin_locks finish_locks db (err e) = refl
  quotes_admitted-IsUnseen begin_locks finish_locks db (ok false) = refl
  quotes_admitted-IsUnseen begin_locks finish_locks db (ok true) =
      elim (Result-cases (write_retried begin_locks (begin_quotes run started db))) [
        | inl (e, q) ↦ rw q refl
        | inr (db1, q) ↦ rw q (
            quotes_begun-IsUnseen finish_locks db db1
              (write_retried-ok begin_locks (begin_quotes run started db) db1 q))
      ]

-- A quote cycle leaves the successes that the full sync's schedule reads alone, whatever it comes to:
-- not due, completed, or an error before or after the run's row was committed.
pub run_quotes-successes :
    (c : Calendar) (get_quotes : List String → Result (String → Option Quote))
    (assets : List ManualAsset) (run : String) (begin_locks finish_locks : Locks)
    (started fetched finished : ℕ) (db : Database)
    → successes
        (run_quotes c get_quotes assets run begin_locks finish_locks started fetched finished
          db).1.runs
      ≡ successes db.runs
unfolding run_quotes
run_quotes-successes c get_quotes assets run begin_locks finish_locks started fetched finished db =
    quotes_admitted-IsUnseen c get_quotes assets run started fetched finished begin_locks
      finish_locks db _
