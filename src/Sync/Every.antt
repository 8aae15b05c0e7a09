-- ===== src/Sync/Every.antt =====
-- networth/sync.py: `collect` settles every syncable account.
use mathlib.Core.List.{Perm}
use mathlib.Core.List.Perm
use networth.Prelude.{
  ℕ, Bool, not, ◌≡◌, sym, subst, inl, inr, Bool-cases, Option, none, some, String, List, [], ◌∷◌,
  ◌++◌, ap, All, length, contains,
}
use networth.Prelude.Result.{
  ok, ok-injective, >>=-eq-ok, raise_if-eq-ok, no_transaction, invalid_observation,
}
use networth.Calendar.Market.{Calendar}
use networth.Model.Texts.{is_nonempty}
use networth.Model.Item.{ItemHealth}
use networth.Model.Account.{LinkedAccount}
use networth.Store.Tables.{Database}
use networth.Store.Items.{get_item}
use networth.Store.Accounts.{syncable}
use networth.Sync.Records.{
  Call, raised, returned, BalanceRecord, InvestmentRecords, BalanceMode, SyncItemOutcome,
  FullSyncPlan,
}
use networth.Sync.Plan.{Planned, also, fallback_all, plan_balances, plan_holdings}
use networth.Sync.Cycle.{
  SyncSetup, balances_answered, holdings_answered, balances_planned, holdings_planned, with_token,
  with_item, plan_item, item_turn, item_turns, collect_sync, grouped,
}
use networth.Sync.Targets.{syncable-All}
use networth.Sync.Settled.{
  Settled, finished, IsSettled, Settled-append, both-IsSettled, fallback-IsSettled,
  plan_matched-IsSettled,
}
use networth.Sync.Order.{
  IsSynced, Perm-policies, flat, Perm-grouped, AllGrouped, AllGrouped-grouped,
}

module _ (s : SyncSetup) (db : Database) (run : String) (at : ℕ) where
  abbrev Settles : List LinkedAccount → Planned → Type 0
  Settles = IsSettled db.observations run at

  nothing : (p : Planned) → ok ([], []) ≡ ok p → Settles [] p
  nothing p h = subst (Settles []) (ok-injective h) finished

  fallback_all-Settles :
      (ts : List LinkedAccount) (error : String) (p : Planned)
      → fallback_all db.observations run at ts error ≡ ok p
      → Settles ts p
  unfolding fallback_all
  fallback_all-Settles [] error p h = nothing p h
  fallback_all-Settles (t ∷ ts) error p h =
      both-IsSettled db.observations run at (t ∷ []) ts _ _ p
        (fallback-IsSettled db.observations run at t error) (fallback_all-Settles ts error) h

  plan_balances-Settles :
      (mode : BalanceMode) (records : List BalanceRecord) (ts : List LinkedAccount) (p : Planned)
      → plan_balances db.observations run at mode records ts ≡ ok p
      → Settles ts p
  unfolding plan_balances
  plan_balances-Settles mode records [] p h = nothing p h
  plan_balances-Settles mode records (t ∷ ts) p h =
      both-IsSettled db.observations run at (t ∷ []) ts _ _ p
        (plan_matched-IsSettled db.observations run at t _ _ _ _)
        (plan_balances-Settles mode records ts) h

  plan_holdings-Settles :
      (calendar : Calendar) (item : ItemHealth) (investments : InvestmentRecords)
      (ts : List LinkedAccount) (p : Planned)
      → plan_holdings db.observations run at calendar item investments ts ≡ ok p
      → Settles ts p
  unfolding plan_holdings
  plan_holdings-Settles calendar item investments [] p h = nothing p h
  plan_holdings-Settles calendar item investments (t ∷ ts) p h =
      both-IsSettled db.observations run at (t ∷ []) ts _ _ p
        (plan_matched-IsSettled db.observations run at t _ _ _ _)
        (plan_holdings-Settles calendar item investments ts) h

  balances_answered-Settles :
      (ts : List LinkedAccount) (answer : Call (List BalanceRecord)) (p : Planned)
      → balances_answered s db run at ts answer ≡ ok p
      → Settles ts p
  balances_answered-Settles ts (raised name) p h = fallback_all-Settles ts name p h
  balances_answered-Settles ts (returned records) p h =
      plan_balances-Settles s.balance_mode records ts p h

  holdings_answered-Settles :
      (item : ItemHealth) (ts : List LinkedAccount) (answer : Call InvestmentRecords) (p : Planned)
      → holdings_answered s db run at item ts answer ≡ ok p
      → Settles ts p
  holdings_answered-Settles item ts (raised name) p h = fallback_all-Settles ts name p h
  holdings_answered-Settles item ts (returned investments) p h =
      plan_holdings-Settles s.calendar item investments ts p h

  balances_planned-Settles :
      (token : String) (ts : List LinkedAccount) (p : Planned)
      → balances_planned s db run at token ts ≡ ok p
      → Settles ts p
  unfolding balances_planned
  balances_planned-Settles token [] p h = nothing p h
  balances_planned-Settles token (t ∷ ts) p h = balances_answered-Settles (t ∷ ts) _ p h

  holdings_planned-Settles :
      (item : ItemHealth) (token : String) (ts : List LinkedAccount) (p : Planned)
      → holdings_planned s db run at item token ts ≡ ok p
      → Settles ts p
  unfolding holdings_planned
  holdings_planned-Settles item token [] p h = nothing p h
  holdings_planned-Settles item token (t ∷ ts) p h = holdings_answered-Settles item (t ∷ ts) _ p h

  -- The plan settles these targets, in some order.
  abbrev pub SettlesAll : List LinkedAccount → Planned → Type 0
  SettlesAll ts p = (order : List LinkedAccount) × Perm order ts × Settles order p

  with_token-SettlesAll :
      (item : ItemHealth) (ts : List LinkedAccount) (token : Call String) (p : Planned)
      → All IsSynced ts
      → with_token s db run at item ts token ≡ ok p
      → SettlesAll ts p
  with_token-SettlesAll item ts (raised name) p synced h =
      (ts, Perm.refl ts, fallback_all-Settles ts name p h)
  with_token-SettlesAll item ts (returned token) p synced h = (
    _,
    Perm-policies ts synced,
    both-IsSettled db.observations run at _ _ _ _ p (balances_planned-Settles token _)
        (holdings_planned-Settles item token _) h,
  )

  with_item-SettlesAll :
      (ts : List LinkedAccount) (found : Option ItemHealth) (p : Planned)
      → All IsSynced ts
      → with_item s db run at ts found ≡ ok p
      → SettlesAll ts p
  with_item-SettlesAll ts none p synced h = (ts, Perm.refl ts, fallback_all-Settles ts _ p h)
  with_item-SettlesAll ts (some item) p synced h = with_token-SettlesAll item ts _ p synced h

  plan_item-SettlesAll :
      (item_id : ℕ) (ts : List LinkedAccount) (p : Planned)
      → All IsSynced ts
      → plan_item s db run at item_id ts ≡ ok p
      → SettlesAll ts p
  unfolding plan_item
  plan_item-SettlesAll item_id ts p synced h =
      let (found, got, rest) = >>=-eq-ok (get_item db.items item_id) _ h in
      with_item-SettlesAll ts found p synced rest

  item_turn-SettlesAll :
      (deferred : List ℕ) (item_id : ℕ) (ts : List LinkedAccount) (p : Planned)
      (outcome : SyncItemOutcome)
      → All IsSynced ts
      → item_turn s db run at deferred item_id ts ≡ ok (p, outcome)
      → SettlesAll ts p
  item_turn-SettlesAll deferred item_id ts p outcome synced h =
      elim (Bool-cases (contains item_id deferred)) [
        | inl e ↦
            let (q, made, last) =
              >>=-eq-ok (fallback_all db.observations run at ts "RetryDeferred") _ (rw e at h) in
            subst (SettlesAll ts) (ap (λ r. r.0) (ok-injective last))
              (ts, Perm.refl ts, fallback_all-Settles ts _ q made)
        | inr e ↦
            let (q, made, last) = >>=-eq-ok (plan_item s db run at item_id ts) _ (rw e at h) in
            subst (SettlesAll ts) (ap (λ r. r.0) (ok-injective last))
              (plan_item-SettlesAll item_id ts q synced made)
      ]

  also-SettlesAll :
      (ts us : List LinkedAccount) (p q : Planned)
      → SettlesAll ts p
      → SettlesAll us q
      → SettlesAll (ts ++ us) (also p q)
  also-SettlesAll ts us p q (o, e, h) (o', e', h') =
      (o ++ o', Perm.append e e', Settled-append db.observations run at h h')

  item_turns-SettlesAll :
      (deferred : List ℕ) (groups : List (ℕ × List LinkedAccount)) (p : Planned)
      (outcomes : List SyncItemOutcome)
      → AllGrouped groups
      → item_turns s db run at deferred groups ≡ ok (p, outcomes)
      → SettlesAll (flat groups) p
  unfolding item_turns
  item_turns-SettlesAll deferred [] p outcomes synced h =
      ([], Perm.refl [], nothing p (ap ok (ap (λ r. r.0) (ok-injective h))))
  item_turns-SettlesAll deferred ((item_id, ts) ∷ groups) p outcomes (hs, hg) h =
      let ((q, outcome), made, h1) = >>=-eq-ok (item_turn s db run at deferred item_id ts) _ h in
      let ((r, later), made', h2) = >>=-eq-ok (item_turns s db run at deferred groups) _ h1 in
      subst (SettlesAll (ts ++ flat groups)) (ap (λ r. r.0) (ok-injective h2)) (
        also-SettlesAll ts (flat groups) q r
          (item_turn-SettlesAll deferred item_id ts q outcome hs made)
          (item_turns-SettlesAll deferred groups r later hg made'))

-- A plan that `collect` returns settles every syncable account, whatever the token store and the
-- client answered: in some order of the accounts, each has either a fresh draft and no failure, or a
-- failure, with a draft that repeats its last observation exactly if it has one.
pub collect_sync-Settled :
    (s : SyncSetup) (db : Database) (in_transaction : Bool) (run : String) (at : ℕ)
    (deferred : List ℕ) (plan : FullSyncPlan)
    → collect_sync s db in_transaction run at deferred ≡ ok plan
    → (targets order : List LinkedAccount) × (syncable db.accounts ≡ ok targets)
      × (plan.attempted_count ≡ length targets)
      × Perm order targets
      × Settled db.observations run at order plan.observations plan.failures
unfolding collect_sync
collect_sync-Settled s db in_transaction run at deferred plan h =
    let h1 = raise_if-eq-ok in_transaction no_transaction _ h in
    let h2 = raise_if-eq-ok (not (is_nonempty run)) invalid_observation _ h1 in
    let (targets, found, h3) = >>=-eq-ok (syncable db.accounts) _ h2 in
    let ((p, outcomes), made, h4) =
      >>=-eq-ok (item_turns s db run at deferred (grouped [] targets)) _ h3 in
    let (order, same, settled) =
      item_turns-SettlesAll s db run at deferred (grouped [] targets) p outcomes
        (AllGrouped-grouped [] targets tt (syncable-All db.accounts targets found)) made in
    let eq = ok-injective h4 in
    (
      targets,
      order,
      found,
      sym (ap (λ (r : FullSyncPlan). r.attempted_count) eq),
      Perm.trans same (Perm-grouped [] targets),
      subst (λ (r : FullSyncPlan). Settled db.observations run at order r.observations r.failures)
          eq settled,
    )
