-- ===== src/Sync/Settled.antt =====
-- networth/sync.py: what becomes of every target of a full sync, whatever the token store and the
-- client answer.
use networth.Prelude.{
  ℕ, Bool, true, false, ◌≡◌, refl, subst, inl, inr, Option, none, some, Option-cases, String, List,
  [], ◌∷◌, ◌++◌, arith,
}
use networth.Prelude.Result.{Result, ok, ok-injective, >>=-eq-ok}
use networth.Prelude.Int.{ℤ}
use networth.Money.{to_minor_units}
use networth.Model.Figure.{SourcedFigure, new_figure}
use networth.Model.Observation.{
  ObservationSource, ObservationDraft, Observation, new_observation_draft,
}
use networth.Model.Account.{LinkedAccount}
use networth.Store.Observations.{latest_for_account}
use networth.Sync.Records.{BalanceRecord, SyncFailure}
use networth.Sync.Plan.{Planned, both, carried, fallback, fresh_draft, plan_matched}

module _ (observations : List Observation) (run : String) (at : ℕ) where
  -- A draft of this run for this account.
  pub record IsDraftOf (t : LinkedAccount) (d : ObservationDraft) : Type 0 where
    pub of_run : d.sync_run_id ≡ run
    pub of_account : d.account_id ≡ t.id
    pub now : d.observed_at ≡ at

  -- The draft repeats the account's last stored observation, both of its clocks unchanged.
  pub record IsRepeat (t : LinkedAccount) (d : ObservationDraft) : Type 0 where
    pub previous : Observation
    pub latest : latest_for_account observations t.id ≡ ok (some previous)
    pub same_figure : d.figure ≡ previous.figure
    pub same_source : d.source ≡ previous.source
    pub same_fetch : d.fetched_at ≡ previous.fetched_at

  -- Each target in turn has a fresh draft and no failure, or a failure, with a draft that repeats
  -- its last observation exactly if there is one.
  pub data Settled : List LinkedAccount → List ObservationDraft → List SyncFailure → Type 0 where
    finished : Settled [] [] []
    refreshed :
        {ts : List LinkedAccount} {ds : List ObservationDraft} {fs : List SyncFailure}
        (t : LinkedAccount) (d : ObservationDraft)
        → IsDraftOf t d
        → d.fetched_at ≡ at
        → d.is_carried_forward ≡ false
        → Settled ts ds fs
        → Settled (t ∷ ts) (d ∷ ds) fs
    repeated :
        {ts : List LinkedAccount} {ds : List ObservationDraft} {fs : List SyncFailure}
        (t : LinkedAccount) (d : ObservationDraft) (error : String)
        → IsDraftOf t d
        → IsRepeat t d
        → d.is_carried_forward ≡ true
        → Settled ts ds fs
        → Settled
            (t ∷ ts)
            (d ∷ ds)
            (record { account_id = t.id; error_type = error; carried_forward = true } ∷ fs)
    missing :
        {ts : List LinkedAccount} {ds : List ObservationDraft} {fs : List SyncFailure}
        (t : LinkedAccount) (error : String)
        → latest_for_account observations t.id ≡ ok none
        → Settled ts ds fs
        → Settled
            (t ∷ ts)
            ds
            (record { account_id = t.id; error_type = error; carried_forward = false } ∷ fs)

  abbrev pub IsSettled : List LinkedAccount → Planned → Type 0
  IsSettled ts (ds, fs) = Settled ts ds fs

  pub Settled-append :
      {ts us : List LinkedAccount} {ds es : List ObservationDraft} {fs gs : List SyncFailure}
      → Settled ts ds fs
      → Settled us es gs
      → Settled (ts ++ us) (ds ++ es) (fs ++ gs)
  Settled-append finished r = r
  Settled-append (refreshed t d a b c s) r = refreshed t d a b c (Settled-append s r)
  Settled-append (repeated t d e a b c s) r = repeated t d e a b c (Settled-append s r)
  Settled-append (missing t e a s) r = missing t e a (Settled-append s r)

  abbrev failure_of : LinkedAccount → String → Bool → SyncFailure
  failure_of t error carried_forward = record {
    account_id = t.id;
    error_type = error;
    carried_forward = carried_forward;
  }

  abbrev figure_in : BalanceRecord → ℤ → Option ℕ → String → SourcedFigure
  figure_in total cents as_of clock = record {
    value_minor = cents;
    currency = total.currency;
    as_of = as_of;
    source_clock = clock;
  }

  pub both-IsSettled :
      (ts us : List LinkedAccount) (first second : Result Planned) (p : Planned)
      → ((q : Planned) → first ≡ ok q → IsSettled ts q)
      → ((q : Planned) → second ≡ ok q → IsSettled us q)
      → both first second ≡ ok p
      → IsSettled (ts ++ us) p
  both-IsSettled ts us first second p f g h =
      let (q, eq, rest) = >>=-eq-ok first _ h in
      let (r, eq', last) = >>=-eq-ok second _ rest in
      subst (IsSettled (ts ++ us)) (ok-injective last) (Settled-append (f q eq) (g r eq'))

  new_observation_draft-eq : (x d : ObservationDraft) → new_observation_draft x ≡ ok d → x ≡ d
  unfolding new_observation_draft
  new_observation_draft-eq x d h = ground arith

  abbrev repeat_of : LinkedAccount → Observation → ObservationDraft
  repeat_of t previous = record {
    sync_run_id = run;
    account_id = t.id;
    observed_at = at;
    figure = previous.figure;
    source = previous.source;
    fetched_at = previous.fetched_at;
    is_carried_forward = true;
  }

  abbrev fresh_of : LinkedAccount → SourcedFigure → ObservationSource → ObservationDraft
  fresh_of t figure source = record {
    sync_run_id = run;
    account_id = t.id;
    observed_at = at;
    figure = figure;
    source = source;
    fetched_at = at;
    is_carried_forward = false;
  }

  pub fallback-IsSettled :
      (t : LinkedAccount) (error : String) (p : Planned)
      → fallback observations run at t error ≡ ok p
      → IsSettled (t ∷ []) p
  unfolding fallback carried
  fallback-IsSettled t error p h =
      let (last, read, rest) = >>=-eq-ok (latest_for_account observations t.id) _ h in
      elim (Option-cases last) [
        | inl e ↦
            subst (IsSettled (t ∷ [])) (ok-injective (rw e at rest))
              (missing t error (rw e at read) finished)
        | inr (previous, e) ↦
            let (d, made, last_step) =
              >>=-eq-ok (new_observation_draft (repeat_of t previous)) _ (rw e at rest) in
            subst (IsSettled (t ∷ [])) (ok-injective last_step) (
              subst (λ d. Settled (t ∷ []) (d ∷ []) (failure_of t error true ∷ []))
                (new_observation_draft-eq _ d made)
                (repeated t (repeat_of t previous) error
                  (record { of_run = refl; of_account = refl; now = refl })
                  (record {
                    previous = previous;
                    latest = rw e at read;
                    same_figure = refl;
                    same_source = refl;
                    same_fetch = refl;
                  })
                  refl finished))
      ]

  pub fresh_draft-IsSettled :
      (t : LinkedAccount) (total : BalanceRecord) (source : ObservationSource)
      (clock : Option ℕ × String) (p : Planned)
      → fresh_draft run at t total source clock ≡ ok p
      → IsSettled (t ∷ []) p
  unfolding fresh_draft
  fresh_draft-IsSettled t total source (as_of, clock) p h =
      let (cents, made, h1) = >>=-eq-ok (to_minor_units total.current total.currency) _ h in
      let (figure, made', h2) = >>=-eq-ok (new_figure (figure_in total cents as_of clock)) _ h1 in
      let (d, built, h3) = >>=-eq-ok (new_observation_draft (fresh_of t figure source)) _ h2 in
      subst (IsSettled (t ∷ [])) (ok-injective h3) (
        subst (λ d. Settled (t ∷ []) (d ∷ []) []) (new_observation_draft-eq _ d built)
          (refreshed t (fresh_of t figure source)
            (record { of_run = refl; of_account = refl; now = refl }) refl refl finished))

  pub plan_matched-IsSettled :
      (t : LinkedAccount) (source : ObservationSource) (clock : BalanceRecord → Option ℕ × String)
      (matches : List BalanceRecord) (error : Option String) (p : Planned)
      → plan_matched observations run at t source clock matches error ≡ ok p
      → IsSettled (t ∷ []) p
  plan_matched-IsSettled t source clock matches (some error) p h = fallback-IsSettled t error p h
  plan_matched-IsSettled t source clock [] none p h = cc
  plan_matched-IsSettled t source clock (total ∷ _) none p h =
      fresh_draft-IsSettled t total source (clock total) p h
